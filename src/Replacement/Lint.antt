-- ===== src/Replacement/Lint.antt =====
-- `validate_generated_lint_annotations` of tools/refactor.py: the lint annotations of the generated
-- core_top. The positions of its loop are natural numbers.
pub mod Scoped
use nscscc_cpu.Base.{
  ℕ, zero, suc, ◌+◌, ◌-◌, Bool, true, false, not, ◌&&◌, ◌||◌, String, List, [], ◌∷◌, codes, strip,
  lstrip, rstrip, splitlines, has_suffix, text_eq, any, all, length, take, drop, leb, ltb, is_hex,
  is_empty, get_elem?, map, ◌==◌, if◌then◌else◌, Option, none, some,
}
use nscscc_cpu.Result.{Result, ok, err, refused, ◌>>=◌, ◌>>◌, require}
use nscscc_cpu.Verilog.Macros.{behind_keyword, longest, is_letter, is_name_character}
use nscscc_cpu.Transcript.Search.{
  Characters, behind, is_some, or_none, after_spaces, ends_word, word_ends,
}
use nscscc_cpu.Replacement.Patterns.{
  Annotation, same_annotation, spelling, spells, annotation, is_annotation, count_of_annotation,
  annotations_in, find_from, find_all, shown_before, has_inventory, is_published_source, line_at,
  line_before, marks, is_line, behind_action, if_ends_word, close_comment, behind_marker, marker_at,
  ends_item, declares, is_declaration, has_boundary, starts_name, names_module, is_module,
  is_endmodule, is_decimal, ends_numbered, ends_black_box, is_black_box, file_off, file_on,
  signal_off, signal_on,
}

-- What the loop has counted.
pub record Tally : Type 0 where
  pub normal_unused : ℕ
  pub special_off : ℕ
  pub special_on : ℕ

module _ (H : Characters) where
  module _ (lines : List (List ℕ)) where
    -- A signal's rule is off around one declaration.
    abbrev pub is_scoped_off : ℕ → Bool
    is_scoped_off index =
        line_at lines (is_declaration H) (index + 1) && line_at lines (marks signal_on) (index + 2)

    -- It is off in front of a black box of DiffTest.
    abbrev pub is_special_off : ℕ → Bool
    is_special_off index =
        ltb (index + 3) (length lines)
        && line_before lines (is_line "`ifndef DIFFTEST_EN") 1 index
        && line_at lines (is_line "`endif") (index + 1)
        && line_at lines (marks file_off) (index + 2)
        && line_at lines (is_black_box H) (index + 3)

    abbrev pub is_scoped_on : ℕ → Bool
    is_scoped_on index =
        line_before lines (marks signal_off) 2 index && line_before lines (is_declaration H) 1 index

    abbrev pub is_special_on : ℕ → Bool
    is_special_on index =
        ltb 1 index
        && ltb (index + 1) (length lines)
        && line_before lines (is_line "`ifndef DIFFTEST_EN") 1 index
        && line_at lines (is_line "`endif") (index + 1)
        && line_before lines (marks file_on) 2 index

    -- One turn of the loop.
    unfoldable pub check_annotation : ℕ → Option Annotation → Tally → Result Tally
    check_annotation index none t = ok t
    check_annotation index (some file_off) t = do
      require (line_at lines (is_module H) (index + 1))
          "generated core_top DECLFILENAME annotation is not module-scoped"
      ok t
    check_annotation index (some file_on) t = do
      require (line_before lines (is_endmodule H) 1 index)
          "generated core_top DECLFILENAME annotation is not module-scoped"
      ok t
    check_annotation index (some signal_off) t =
        if not (ltb (index + 2) (length lines))
        then ok t
        else if is_scoped_off index
        then ok (record {
          normal_unused = t.normal_unused + 1;
          special_off = t.special_off;
          special_on = t.special_on;
        })
        else if is_special_off index
        then ok (record {
          normal_unused = t.normal_unused;
          special_off = t.special_off + 1;
          special_on = t.special_on;
        })
        else err (refused "generated core_top UNUSEDSIGNAL annotation is not declaration-scoped")
    check_annotation index (some signal_on) t =
        if is_scoped_on index
        then ok t
        else if is_special_on index
        then ok (record {
          normal_unused = t.normal_unused;
          special_off = t.special_off;
          special_on = t.special_on + 1;
        })
        else err (refused "generated core_top UNUSEDSIGNAL annotation is unbalanced")

    unfoldable pub check_annotations : ℕ → List (List ℕ) → Tally → Result Tally
    check_annotations index [] t = ok t
    check_annotations index (line ∷ rest) t = do
      now ← check_annotation index (annotation line) t
      check_annotations (suc index) rest now

    abbrev pub empty_tally : Tally
    empty_tally = record { normal_unused = 0; special_off = 0; special_on = 0 }

    unfoldable pub check_lines : List (List ℕ) → Result (Unit {0})
    check_lines markers = do
      require (annotations_in (map annotation lines) == length markers)
          "generated core_top contains an unapproved inline lint annotation"
      require (has_inventory (map annotation lines))
          "generated core_top lint annotation inventory differs"
      t ← check_annotations 0 lines empty_tally
      require ((t.normal_unused == 6) && (t.special_off == 1) && (t.special_on == 1))
          "generated core_top lint annotation scopes differ"

  unfoldable pub check_markers : List (List ℕ) → List ℕ → List ℕ → Result (Unit {0})
  check_markers [] text source = ok tt
  check_markers (marker ∷ markers) text source = do
    require (is_published_source source) "replacement Verilog contains an inline lint waiver"
    check_lines (splitlines text) (marker ∷ markers)

  unfoldable pub validate_generated_lint_annotations : List ℕ → List ℕ → Result (Unit {0})
  validate_generated_lint_annotations text source =
      check_markers (find_all (marker_at H) text) text source
