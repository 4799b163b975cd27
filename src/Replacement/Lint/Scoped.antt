-- ===== src/Replacement/Lint/Scoped.antt =====
-- The lint annotations that are accepted: each stands at its place.
use nscscc_cpu.Base.{
  ℕ, suc, ◌+◌, ◌<◌, Bool, true, false, not, ◌&&◌, ◌||◌, List, [], ◌∷◌, splitlines, map, length, ltb,
  String, ◌==◌, Option, none, some, if◌then◌else◌, ◌≡◌, refl, arith, ◌⊎◌, inl, inr, sym, ap, ◌∙◌,
}
use nscscc_cpu.Result.{ok, err, refused, ◌>>◌, require, >>=-returns, require-eq-ok, ok-injective}
use nscscc_cpu.Transcript.Search.{Characters}
use nscscc_cpu.Replacement.Patterns.{
  Annotation, file_off, file_on, signal_off, signal_on, annotation, count_of_annotation,
  annotations_in, find_all, has_inventory, is_published_source, line_at, line_before, marker_at,
  is_module, is_endmodule,
}
use nscscc_cpu.Replacement.Lint.{
  Tally, is_scoped_off, is_special_off, is_scoped_on, is_special_on, check_annotation,
  check_annotations, check_lines, check_markers, validate_generated_lint_annotations, empty_tally,
}

-- The openings that the loop has counted.
abbrev opened : Tally → ℕ
opened t = t.normal_unused + t.special_off

abbrev opens : Option Annotation → ℕ
opens none = 0
opens (some file_off) = 0
opens (some file_on) = 0
opens (some signal_off) = 1
opens (some signal_on) = 0

opens_counted :
    (found : Option Annotation) (more : List (Option Annotation))
    → count_of_annotation signal_off (found ∷ more)
      ≡ opens found + count_of_annotation signal_off more
unfolding count_of_annotation
opens_counted none more = omega arith
opens_counted (some file_off) more = omega arith
opens_counted (some file_on) more = omega arith
opens_counted (some signal_off) more = omega arith
opens_counted (some signal_on) more = omega arith

none_counted : count_of_annotation signal_off [] ≡ 0
unfolding count_of_annotation
none_counted = refl

eq_nat : {m n : ℕ} → (m == n) ≡ true → m ≡ n
eq_nat h = ground arith

seven :
    (parsed : List (Option Annotation))
    → has_inventory parsed ≡ true
    → count_of_annotation signal_off parsed ≡ 7
seven parsed h = ground arith

too_few :
    (t : Tally) (n : ℕ)
    → n ≡ 7
    → ((t.normal_unused == 6) && (t.special_off == 1) && (t.special_on == 1)) ≡ true
    → t.normal_unused + t.special_off < 0 + 0 + n
    → ⊥
too_few t n e h k = ground arith

module _ (H : Characters) (lines : List (List ℕ)) where
  -- The place of an annotation: a module's name behind it or its end before it, and a signal's rule is
  -- off around one declaration or one black box of DiffTest.
  abbrev pub IsScoped : ℕ → Option Annotation → Type 0
  IsScoped index none = Unit
  IsScoped index (some file_off) = line_at lines (is_module H) (index + 1) ≡ true
  IsScoped index (some file_on) = line_before lines (is_endmodule H) 1 index ≡ true
  IsScoped index (some signal_off) =
      (is_scoped_off H lines index || is_special_off H lines index) ≡ true
  IsScoped index (some signal_on) =
      (is_scoped_on H lines index || is_special_on H lines index) ≡ true

  abbrev pub AllScoped : ℕ → List (List ℕ) → Type 0
  AllScoped index [] = Unit
  AllScoped index (line ∷ rest) = IsScoped index (annotation line) × AllScoped (suc index) rest

  signal_off_checked :
      (index : ℕ) (t now : Tally) (short scoped special : Bool)
      → (if short
          then ok t
          else if scoped
          then ok (record {
            normal_unused = t.normal_unused + 1;
            special_off = t.special_off;
            special_on = t.special_on;
          })
          else if special
          then ok (record {
            normal_unused = t.normal_unused;
            special_off = t.special_off + 1;
            special_on = t.special_on;
          })
          else err (refused "generated core_top UNUSEDSIGNAL annotation is not declaration-scoped"))
        ≡ ok now
      → (((scoped || special) ≡ true) × (opened now ≡ opened t + 1)) ⊎ (opened now ≡ opened t)
  signal_off_checked index t now true scoped special h =
      inr (sym (ap opened (ok-injective t now h)))
  signal_off_checked index t now false true special h =
      inl (refl, sym (ap opened (ok-injective _ now h)) ∙ omega arith)
  signal_off_checked index t now false false true h =
      inl (refl, sym (ap opened (ok-injective _ now h)) ∙ omega arith)
  signal_off_checked index t now false false false h = cc

  signal_on_checked :
      (t now : Tally) (scoped special : Bool)
      → (if scoped
          then ok t
          else if special
          then ok (record {
            normal_unused = t.normal_unused;
            special_off = t.special_off;
            special_on = t.special_on + 1;
          })
          else err (refused "generated core_top UNUSEDSIGNAL annotation is unbalanced"))
        ≡ ok now
      → ((scoped || special) ≡ true) × (opened now ≡ opened t)
  signal_on_checked t now true special h = (refl, sym (ap opened (ok-injective t now h)))
  signal_on_checked t now false true h = (refl, sym (ap opened (ok-injective _ now h)))
  signal_on_checked t now false false h = cc

  file_checked :
      (b : Bool) (s : String) (t now : Tally)
      → (require b s >> ok t) ≡ ok now
      → (b ≡ true) × (opened now ≡ opened t)
  file_checked true s t now h = (refl, sym (ap opened (ok-injective t now h)))
  file_checked false s t now h = cc

  -- One turn: the annotation is at its place and is counted, or an opening is passed over.
  annotation_checked :
      (index : ℕ) (found : Option Annotation) (t now : Tally)
      → check_annotation H lines index found t ≡ ok now
      → (IsScoped index found × (opened now ≡ opened t + opens found))
        ⊎ (opened now < opened t + opens found)
  unfolding check_annotation
  annotation_checked index none t now h =
      inl (tt, sym (ap opened (ok-injective t now h)) ∙ omega arith)
  annotation_checked index (some file_off) t now h =
      let (a, b) =
        file_checked (line_at lines (is_module H) (index + 1))
          "generated core_top DECLFILENAME annotation is not module-scoped" t now h in
      inl (a, omega arith)
  annotation_checked index (some file_on) t now h =
      let (a, b) =
        file_checked (line_before lines (is_endmodule H) 1 index)
          "generated core_top DECLFILENAME annotation is not module-scoped" t now h in
      inl (a, omega arith)
  annotation_checked index (some signal_off) t now h =
      elim (signal_off_checked index t now (not (ltb (index + 2) (length lines)))
        (is_scoped_off H lines index) (is_special_off H lines index) h) [
          | inl (a, b) ↦ inl (a, omega arith)
          | inr b ↦ inr (omega arith)
        ]
  annotation_checked index (some signal_on) t now h =
      let (a, b) =
        signal_on_checked t now (is_scoped_on H lines index) (is_special_on H lines index) h in
      inl (a, omega arith)

  -- The loop: all are at their places and counted, or the count stays behind the openings.
  annotations_checked :
      (index : ℕ) (rest : List (List ℕ)) (t now : Tally)
      → check_annotations H lines index rest t ≡ ok now
      → (AllScoped index rest
          × (opened now ≡ opened t + count_of_annotation signal_off (map annotation rest)))
        ⊎ (opened now < opened t + count_of_annotation signal_off (map annotation rest))
  unfolding check_annotations
  annotations_checked index [] t now h =
      let none_more = none_counted in inl (tt, sym (ap opened (ok-injective t now h)) ∙ omega arith)
  annotations_checked index (line ∷ rest) t now h =
      let (next, e, h1) = >>=-returns (check_annotation H lines index (annotation line) t) _ h in
      let counted = opens_counted (annotation line) (map annotation rest) in
      elim (annotation_checked index (annotation line) t next e) [
        | inl (a, b) ↦ elim (annotations_checked (suc index) rest next now h1) [
          | inl (c, d) ↦ inl ((a, c), omega arith)
          | inr d ↦ inr (omega arith)
        ]
        | inr b ↦ elim (annotations_checked (suc index) rest next now h1) [
          | inl (c, d) ↦ inr (omega arith)
          | inr d ↦ inr (omega arith)
        ]
      ]

  -- The loop and the inventory.
  lines_checked :
      (markers : List (List ℕ))
      → check_lines H lines markers ≡ ok tt
      → (annotations_in (map annotation lines) ≡ length markers)
        × (has_inventory (map annotation lines) ≡ true)
        × AllScoped 0 lines
  unfolding check_lines
  lines_checked markers h =
      let parsed = map annotation lines in
      let (_, a, h1) =
        >>=-returns
          (require (annotations_in parsed == length markers)
            "generated core_top contains an unapproved inline lint annotation")
          _ h in
      let (_, b, h2) =
        >>=-returns
          (require (has_inventory parsed) "generated core_top lint annotation inventory differs") _
          h1 in
      let (t, c, h3) = >>=-returns (check_annotations H lines 0 lines (empty_tally H lines)) _ h2 in
      let inventory = require-eq-ok (has_inventory parsed) _ b in
      let scopes =
        require-eq-ok ((t.normal_unused == 6) && (t.special_off == 1) && (t.special_on == 1)) _
          h3 in
      let same = require-eq-ok (annotations_in parsed == length markers) _ a in
      (
        eq_nat same,
        inventory,
        elim (annotations_checked 0 lines (empty_tally H lines) t c) [
          | inl (scoped, _) ↦ scoped
          | inr fewer ↦ absurd (
              too_few t (count_of_annotation signal_off parsed) (seven parsed inventory) scopes
                fewer)
        ],
      )

markers_checked :
    (H : Characters) (text source : List ℕ) (markers : List (List ℕ))
    → check_markers H markers text source ≡ ok tt
    → (markers ≡ [])
      ⊎ ((is_published_source source ≡ true)
          × (annotations_in (map annotation (splitlines text)) ≡ length markers)
          × (has_inventory (map annotation (splitlines text)) ≡ true)
          × AllScoped H (splitlines text) 0 (splitlines text))
unfolding check_markers
markers_checked H text source [] h = inl refl
markers_checked H text source (marker ∷ markers) h =
    let (_, a, h1) =
      >>=-returns
        (require (is_published_source source) "replacement Verilog contains an inline lint waiver")
        _ h in
    let (b, c, d) = lines_checked H (splitlines text) (marker ∷ markers) h1 in
    inr (require-eq-ok (is_published_source source) _ a, b, c, d)

-- The annotations of a text that is accepted: it has none, or its source is the published core_top, each
-- marker is an annotation line of the locked inventory, and each of these stands at its place; no opening
-- is left over at the end of the text.
pub validate_generated_lint_annotations-AllScoped :
    (H : Characters) (text source : List ℕ)
    → validate_generated_lint_annotations H text source ≡ ok tt
    → (find_all (marker_at H) text ≡ [])
      ⊎ ((is_published_source source ≡ true)
          × (annotations_in (map annotation (splitlines text))
              ≡ length (find_all (marker_at H) text))
          × (has_inventory (map annotation (splitlines text)) ≡ true)
          × AllScoped H (splitlines text) 0 (splitlines text))
unfolding validate_generated_lint_annotations
validate_generated_lint_annotations-AllScoped H text source h =
    markers_checked H text source (find_all (marker_at H) text) h
