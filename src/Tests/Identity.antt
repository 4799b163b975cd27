-- ===== src/Tests/Identity.antt =====
-- A parser's record that is accepted.
use nscscc_cpu.Base.{true, pos, ◌≡◌, refl}
use nscscc_cpu.Result.{ok}
use nscscc_cpu.Json.{null, int, str, bool, arr, obj, nil, Fields, end, field, get, lookup, is_text}
use nscscc_cpu.Iteration.Require.{require_object}
use nscscc_cpu.Contract.Fields.{require_string, require_integer}
use nscscc_cpu.Identity.{
  require_list, require_boolean, require_texts, check_diagnostics, require_booleans, check_markers,
  are_true, validate_parser,
}
use nscscc_cpu.Identity.Proved.{Diagnosed, validate_parser-Diagnosed}

abbrev locked_markers : Fields
locked_markers = field "difftest_library_loaded" (bool true) (
    field "difftest_enabled" (bool true) (
      field "good_trap" (bool true) (
        field "end_by_syscall" (bool true) (
          field "reached_test_end" (bool true)
            (field "nonzero_instructions" (bool true) (field "nonzero_clocks" (bool true) end))))))

abbrev passing_parser : Fields
passing_parser = field "status" (str "pass") (
    field "instructions" (int (pos 7)) (
      field "clocks" (int (pos 20)) (
        field "failures" (arr nil) (
          field "failure_excerpt" (arr nil) (
            field "first_mismatch" null (
              field "markers" (obj locked_markers) (
                field "termination_expectation" (str "end_by_syscall") (
                  field "termination_mode" (str "end_by_syscall")
                    (field "termination_valid" (bool true) end)))))))))

parser_accepted : validate_parser (obj passing_parser) ≡ ok passing_parser
unfolding validate_parser require_object require_string require_integer require_texts require_list
    check_diagnostics check_markers require_booleans require_boolean get lookup
parser_accepted = refl

parser_example :
    (obj passing_parser ≡ obj passing_parser)
    × Diagnosed passing_parser
    × (is_text "end_by_syscall" (get "termination_mode" passing_parser) ≡ true)
    × (markers : Fields) × (get "markers" passing_parser ≡ obj markers)
    × (are_true "difftest_library_loaded" "difftest_enabled" markers ≡ true)
    × (are_true "nonzero_instructions" "nonzero_clocks" markers ≡ true)
parser_example = validate_parser-Diagnosed (obj passing_parser) passing_parser parser_accepted
