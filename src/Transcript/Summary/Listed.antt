-- ===== src/Transcript/Summary/Listed.antt =====
-- Every warning of a transcript is among those collected.
use nscscc_cpu.Base.{
  ℕ, Bool, true, false, not, ◌||◌, List, [], ◌∷◌, ◌++◌, none, some, strip, splitlines, map, all,
  any-append, all_mono, text_elem, text_eq, text_eq_refl, ◌≡◌, refl, arith, ap, sym, subst,
  Bool-cases, Option-cases, inl, inr, and-true_parts,
}
use nscscc_cpu.Transcript.Search.{Characters, is_some, first_match}
use nscscc_cpu.Transcript.Warnings.{Warning, category_at, warnings_of, parse_verilator_warnings}
use nscscc_cpu.Transcript.Summary.{
  rescope, is_compiler_warning, compiler_warnings, collect_warnings,
}

-- The lines of some warnings.
abbrev pub warned_lines : List Warning → List (List ℕ)
warned_lines ws = map (λ (w : Warning). w.line) ws

abbrev pub is_verilator_warning : List ℕ → Bool
is_verilator_warning line = is_some (first_match category_at line)

rescoped_lines : (ws : List Warning) → warned_lines (map rescope ws) ≡ warned_lines ws
rescoped_lines [] = refl
rescoped_lines (w ∷ ws) = ap (λ ls. w.line ∷ ls) (rescoped_lines ws)

lines-append : (xs ys : List Warning) → warned_lines (xs ++ ys) ≡ warned_lines xs ++ warned_lines ys
lines-append [] ys = refl
lines-append (w ∷ xs) ys = ap (λ ls. w.line ∷ ls) (lines-append xs ys)

listed_later : (a b c : Bool) → (not a || c) ≡ true → (not a || (b || c)) ≡ true
listed_later a b c h = ground arith

listed_before : (a b c : Bool) → (not a || b) ≡ true → (not a || (b || c)) ≡ true
listed_before a b c h = ground arith

listed_here : (a b : Bool) → (not a || (b || true)) ≡ true
listed_here a b = ground arith

listed_moved :
    (a b c d : Bool) → (not a || (b || (c || d))) ≡ true → (not a || (c || (b || d))) ≡ true
listed_moved a b c d h = ground arith

listed_either :
    (a b c d : Bool)
    → (not a || c) ≡ true
    → (not b || (c || d)) ≡ true
    → (not (a || b) || (c || d)) ≡ true
listed_either a b c d h k = ground arith

warnings_of-skip :
    (raw : List ℕ) (rest : List (List ℕ))
    → first_match category_at raw ≡ none
    → warnings_of (raw ∷ rest) ≡ warnings_of rest
unfolding warnings_of
warnings_of-skip raw rest e = rw (e, warnings_of) refl

warned_lines-warnings_of :
    (raw : List ℕ) (rest : List (List ℕ)) (tag : List ℕ)
    → first_match category_at raw ≡ some tag
    → warned_lines (warnings_of (raw ∷ rest)) ≡ strip raw ∷ warned_lines (warnings_of rest)
unfolding warnings_of
warned_lines-warnings_of raw rest tag e = rw (e, warnings_of) refl

-- The test that a line is listed if it is a warning.
abbrev pub is_listed : (List ℕ → Bool) → List (List ℕ) → List ℕ → Bool
is_listed is_warning listed raw = not (is_warning raw) || text_elem (strip raw) listed

-- The first line of several, and the others.
all_listed :
    (is_warning : List ℕ → Bool) {listed listed' : List (List ℕ)} (raw : List ℕ)
    (rest : List (List ℕ))
    → listed' ≡ listed
    → is_listed is_warning listed raw ≡ true
    → all (is_listed is_warning listed) rest ≡ true
    → all (is_listed is_warning listed') (raw ∷ rest) ≡ true
all_listed is_warning raw rest same a b =
    subst (λ l. all (is_listed is_warning l) (raw ∷ rest) ≡ true) (sym same) (rw (a, b) refl)

-- The Verilator warnings hold each line that the pattern matches.
warnings_of-listed :
    (lines : List (List ℕ))
    → all (is_listed is_verilator_warning (warned_lines (warnings_of lines))) lines ≡ true
warnings_of-listed [] = refl
warnings_of-listed (raw ∷ rest) =
    let ih = warnings_of-listed rest in
    elim (Option-cases (first_match category_at raw)) [
      | inl e ↦
          all_listed is_verilator_warning raw rest (ap warned_lines (warnings_of-skip raw rest e))
            (rw (e) refl) ih
      | inr (tag, e) ↦
          all_listed is_verilator_warning raw rest (warned_lines-warnings_of raw rest tag e)
            (rw (e, text_eq_refl (strip raw)) refl)
            (all_mono (is_listed is_verilator_warning (warned_lines (warnings_of rest))) _
              (λ line.
                listed_later (is_verilator_warning line) (text_eq (strip line) (strip raw)) _)
              rest ih)
    ]

module _ (H : Characters) where
  abbrev pub warns : List ℕ → Bool
  warns raw = is_compiler_warning H (strip raw)

  compiler_warnings-skip :
      (seen : List (List ℕ)) (raw : List ℕ) (rest : List (List ℕ))
      → (not (warns raw) || text_elem (strip raw) seen) ≡ true
      → compiler_warnings H seen (raw ∷ rest) ≡ compiler_warnings H seen rest
  unfolding compiler_warnings
  compiler_warnings-skip seen raw rest e = rw (e, compiler_warnings) refl

  warned_lines-compiler_warnings :
      (seen : List (List ℕ)) (raw : List ℕ) (rest : List (List ℕ))
      → (not (warns raw) || text_elem (strip raw) seen) ≡ false
      → warned_lines (compiler_warnings H seen (raw ∷ rest))
        ≡ strip raw ∷ warned_lines (compiler_warnings H (strip raw ∷ seen) rest)
  unfolding compiler_warnings
  warned_lines-compiler_warnings seen raw rest e = rw (e, compiler_warnings) refl

  -- Each line with a compiler's warning has been seen or is listed.
  compiler_warnings-listed :
      (seen lines : List (List ℕ))
      → all (is_listed warns (seen ++ warned_lines (compiler_warnings H seen lines))) lines ≡ true
  compiler_warnings-listed seen [] = refl
  compiler_warnings-listed seen (raw ∷ rest) =
      elim (Bool-cases (not (warns raw) || text_elem (strip raw) seen)) [
        | inl e ↦
            let listed = warned_lines (compiler_warnings H seen rest) in
            all_listed warns raw rest
              (ap (λ ws. seen ++ warned_lines ws) (compiler_warnings-skip seen raw rest e))
              (rw (any-append (text_eq (strip raw)) seen listed)
                (listed_before (warns raw) (text_elem (strip raw) seen) _ e))
              (compiler_warnings-listed seen rest)
        | inr e ↦
            let listed = warned_lines (compiler_warnings H (strip raw ∷ seen) rest) in
            all_listed warns raw rest
              (ap (λ ls. seen ++ ls) (warned_lines-compiler_warnings seen raw rest e))
              (rw
                (
                  any-append (text_eq (strip raw)) seen (strip raw ∷ listed),
                  text_eq_refl (strip raw),
                )
                (listed_here (warns raw) (text_elem (strip raw) seen)))
              (all_mono (is_listed warns (strip raw ∷ seen ++ listed))
                (is_listed warns (seen ++ strip raw ∷ listed))
                (λ line h. rw (any-append (text_eq (strip line)) seen (strip raw ∷ listed)) (
                  listed_moved (warns line) (text_eq (strip line) (strip raw))
                    (text_elem (strip line) seen) (text_elem (strip line) listed)
                    (rw (any-append (text_eq (strip line)) seen listed) at h)))
                rest (compiler_warnings-listed (strip raw ∷ seen) rest))
      ]

  abbrev pub warns_at_all : List ℕ → Bool
  warns_at_all raw = is_verilator_warning raw || warns raw

  both_listed :
      (listed more lines : List (List ℕ))
      → all (is_listed is_verilator_warning listed) lines ≡ true
      → all (is_listed warns (listed ++ more)) lines ≡ true
      → all (is_listed warns_at_all (listed ++ more)) lines ≡ true
  both_listed listed more [] h k = refl
  both_listed listed more (raw ∷ rest) h k =
      let (h1, h2) = and-true_parts (is_listed is_verilator_warning listed raw) _ h in
      let (k1, k2) = and-true_parts (is_listed warns (listed ++ more) raw) _ k in
      let split = any-append (text_eq (strip raw)) listed more in
      let here : is_listed warns_at_all (listed ++ more) raw ≡ true = rw (split) (
        listed_either (is_verilator_warning raw) (warns raw) (text_elem (strip raw) listed)
          (text_elem (strip raw) more) h1 (rw (split) at k1)) in
      rw (here, both_listed listed more rest h2 k2) refl

  -- Each line of a transcript that Verilator's or a compiler's pattern matches is among the
  -- warnings collected, stripped.
  pub collect_warnings_complete :
      (text : List ℕ)
      → all (is_listed warns_at_all (warned_lines (collect_warnings H text))) (splitlines text)
        ≡ true
  unfolding collect_warnings parse_verilator_warnings
  collect_warnings_complete text =
      let ws = map rescope (parse_verilator_warnings text) in
      let more = compiler_warnings H (warned_lines ws) (splitlines text) in
      subst (λ l. all (is_listed warns_at_all l) (splitlines text) ≡ true)
        (sym (lines-append ws more))
        (both_listed (warned_lines ws) (warned_lines more) (splitlines text)
          (rw (rescoped_lines (warnings_of (splitlines text)))
            (warnings_of-listed (splitlines text)))
          (compiler_warnings-listed (warned_lines ws) (splitlines text)))
