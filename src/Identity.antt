-- ===== src/Identity.antt =====
-- `_validate_counts` and `_validate_parser` of tools/identity_compare.py, and the field checks that
-- they use.
pub mod Proved
use nscscc_cpu.Base.{
  ℕ, ◌+◌, Bool, true, false, not, ◌&&◌, ◌||◌, String, str_eq, List, [], ◌∷◌, codes, any, elem,
  same_set, is_empty, ◌==◌,
}
use nscscc_cpu.Result.{Result, ok, err, refused, ◌>>=◌, ◌>>◌, require, refuse_if}
use nscscc_cpu.Json.{
  Json, bool, str, arr, obj, Items, items, Fields, keys, get, is_text, is_true, is_null,
}
use nscscc_cpu.Contract.Fields.{require_string, require_integer}
use nscscc_cpu.Iteration.Require.{require_object}

-- `_list`
unfoldable pub require_list : Json → Result (List Json)
require_list (arr xs) = ok (items xs)
require_list _ = err (refused "must be a list")

-- `_boolean`
unfoldable pub require_boolean : Json → Result Bool
require_boolean (bool b) = ok b
require_boolean _ = err (refused "must be a JSON boolean")

pub record Counts : Type 0 where
  pub planned : ℕ
  pub executed : ℕ
  pub passed : ℕ
  pub failed : ℕ
  pub skipped : ℕ

-- The relations between the counts.
unfoldable pub check_counts_add : Counts → Result (Unit {0})
check_counts_add n = do
  require (n.planned == 1) "planned must equal the single locked case"
  require (n.executed == n.passed + n.failed) "executed/pass/fail counts are inconsistent"
  require (n.planned == n.executed + n.skipped) "planned/executed/skipped counts are inconsistent"
  refuse_if (not (n.executed == n.planned) || not (n.skipped == 0))
      "contains unexecuted or skipped work"

unfoldable pub validate_counts : Json → Result Counts
validate_counts value = do
  counts ← require_object value
  planned ← require_integer 0 (get "planned" counts)
  executed ← require_integer 0 (get "executed" counts)
  passed ← require_integer 0 (get "passed" counts)
  failed ← require_integer 0 (get "failed" counts)
  skipped ← require_integer 0 (get "skipped" counts)
  check_counts_add (record {
    planned = planned;
    executed = executed;
    passed = passed;
    failed = failed;
    skipped = skipped;
  })
  ok (record {
    planned = planned;
    executed = executed;
    passed = passed;
    failed = failed;
    skipped = skipped;
  })

-- `isinstance(item, str) and item`
abbrev pub is_filled : Json → Bool
is_filled (str s) = not (is_empty (codes s))
is_filled _ = false

unfoldable pub require_texts : Json → Result (List Json)
require_texts value = do
  texts ← require_list value
  refuse_if (any (λ item. not (is_filled item)) texts) "are malformed"
  ok texts

-- The diagnostics that go with the status.
unfoldable pub check_diagnostics : String → Json → List Json → List Json → Result (Unit {0})
check_diagnostics status first_mismatch failures excerpt = elim (str_eq status "fail") [
  | true ↦ do
    mismatch ← require_string first_mismatch
    refuse_if (is_empty failures || is_empty excerpt) "failing parser lacks diagnostics"
  | false ↦ require (is_null first_mismatch) "passing parser reports a mismatch"
]

abbrev pub marker_names : List String
marker_names =
    "difftest_library_loaded" ∷ "difftest_enabled" ∷ "good_trap" ∷ "end_by_syscall"
    ∷ "reached_test_end" ∷ "nonzero_instructions" ∷ "nonzero_clocks" ∷ []

unfoldable pub require_booleans : Fields → List String → Result (Unit {0})
require_booleans markers [] = ok tt
require_booleans markers (name ∷ names) = do
  value ← require_boolean (get name markers)
  require_booleans markers names

unfoldable pub check_markers : Json → Result Fields
check_markers value = do
  markers ← require_object value
  require (same_set (keys markers) marker_names) "parser marker set is incomplete"
  require_booleans markers marker_names
  ok markers

-- `markers[a] and markers[b]`, where both are known to be booleans.
abbrev pub are_true : String → String → Fields → Bool
are_true a b markers = is_true (get a markers) && is_true (get b markers)

unfoldable pub validate_parser : Json → Result Fields
validate_parser value = do
  parser ← require_object value
  status ← require_string (get "status" parser)
  require (elem status ("pass" ∷ "fail" ∷ [])) "parser has an invalid status"
  instructions ← require_integer 1 (get "instructions" parser)
  clocks ← require_integer 1 (get "clocks" parser)
  failures ← require_texts (get "failures" parser)
  excerpt ← require_texts (get "failure_excerpt" parser)
  check_diagnostics status (get "first_mismatch" parser) failures excerpt
  markers ← check_markers (get "markers" parser)
  require
      (is_text "end_by_syscall" (get "termination_expectation" parser)
        && is_text "end_by_syscall" (get "termination_mode" parser)
        && is_true (get "termination_valid" parser))
      "parser does not prove the locked syscall termination path"
  require (are_true "difftest_library_loaded" "difftest_enabled" markers)
      "parser did not observe active DiffTest"
  require (are_true "nonzero_instructions" "nonzero_clocks" markers)
      "parser did not observe nonzero execution"
  ok parser
