-- ===== src/Iteration/Gate.antt =====
-- `_validate_gate`, `_validate_required_gates` and `gate_counts` of tools/refactor.py.
pub mod Escapes
pub mod Validated
pub mod Required
use mathlib.Core.Option
use nscscc_cpu.Base.{
  ℕ, ◌+◌, Bool, true, false, not, ◌&&◌, ◌||◌, String, List, [], ◌∷◌, ◌==◌, ltb, ltb_ℤ, is_empty,
  if◌then◌else◌, ℤ, pos, any, all, is_nonblank, elem, distinct, Option, none, some, str_eq,
}
use nscscc_cpu.Result.{
  Result, ok, err, refused, type_error, key_error, ◌>>=◌, ◌>>◌, require, refuse_if,
}
use nscscc_cpu.Json.{
  Json, null, bool, int, float, str, arr, obj, Items, nil, cons, Fields, end, field, get, lookup,
  has_key, float_gt_zero, is_text, is_null, items, py_eq,
}
use nscscc_cpu.Iteration.Require.{require_object, require_nonnegative_int, in_set, index, both}

abbrev pub gate_statuses : List String
gate_statuses = "pass" ∷ "fail" ∷ "pending" ∷ "skipped" ∷ "unavailable" ∷ "warning" ∷ []

pub record Counts : Type 0 where
  pub planned : ℕ
  pub executed : ℕ
  pub passed : ℕ
  pub failed : ℕ
  pub skipped : ℕ

-- The dict comprehension over the five count fields, in its order.
unfoldable pub read_counts : Fields → Result Counts
read_counts gate = do
  p ← require_nonnegative_int (get "planned" gate)
  e ← require_nonnegative_int (get "executed" gate)
  a ← require_nonnegative_int (get "passed" gate)
  f ← require_nonnegative_int (get "failed" gate)
  s ← require_nonnegative_int (get "skipped" gate)
  ok (record { planned = p; executed = e; passed = a; failed = f; skipped = s })

-- The checks from `executed` on; each `raise` is one line.
unfoldable pub check_counts : Json → Counts → Result (Unit {0})
check_counts status c = do
  require (c.executed == c.passed + c.failed) "executed must equal passed + failed"
  require (c.planned == c.executed + c.skipped) "planned must equal executed + skipped"
  refuse_if (c.planned == 0) "planned must be greater than zero"
  refuse_if
      (is_text "pass" status
        && not (ltb 0 c.planned && c.passed == c.planned && c.failed == 0 && c.skipped == 0))
      "status=pass contradicts its counts"
  refuse_if (is_text "fail" status && c.failed == 0) "status=fail requires at least one failure"
  refuse_if ((is_text "pending" status || is_text "skipped" status) && not (c.executed == 0))
      "status cannot contain executed tests"
  refuse_if (is_text "unavailable" status && c.failed + c.skipped == 0)
      "unavailable must record a failure or skip"

unfoldable pub validate_gate : Json → Result Fields
validate_gate value = do
  gate ← require_object value
  known ← in_set gate_statuses (get "status" gate)
  require known "status must be one of the gate statuses"
  counts ← read_counts gate
  check_counts (get "status" gate) counts
  ok gate

-- `value > 0`: a `bool` is a number; other values cannot be ordered against an int.
unfoldable pub greater_than_zero : Json → Result Bool
greater_than_zero (int n) = ok (ltb_ℤ (pos 0) n)
greater_than_zero (bool b) = ok b
greater_than_zero (float x) = ok (float_gt_zero x)
greater_than_zero _ = err type_error

-- The condition of the loop over the required gates, evaluated from left to right.
unfoldable pub fully_passed : Fields → Result Bool
fully_passed gate = do
  planned ← index "planned" gate
  both (greater_than_zero planned) (
      both (do v ← index "executed" gate; ok (py_eq v planned))
        (both (do v ← index "passed" gate; ok (py_eq v planned))
          (both (do v ← index "failed" gate; ok (py_eq v (int (pos 0))))
            (do v ← index "skipped" gate; ok (py_eq v (int (pos 0)))))))

-- A dict from gate names to gates.
abbrev pub Gates : Type 0
Gates = List (String × Fields)

unfoldable pub lookup_gate : String → Gates → Option Fields
lookup_gate k [] = none
lookup_gate k ((j, g) ∷ gates) = if str_eq j k then some g else lookup_gate k gates

-- One round of the loop, on the gate found.
unfoldable pub check_gate : Fields → Result (Unit {0})
check_gate gate = do
  passed ← fully_passed gate
  require passed "required gate is not fully executed and passing"
  refuse_if (has_key "status" gate && not (is_text "pass" (get "status" gate)))
      "required gate must report status=pass"

unfoldable pub check_required : Gates → String → Result (Unit {0})
check_required gates name = elim (lookup_gate name gates) [
  | none ↦ err key_error
  | some gate ↦ check_gate gate
]

unfoldable pub check_all_required : Gates → List String → Result (Unit {0})
check_all_required gates [] = ok tt
check_all_required gates (name ∷ names) = do
  check_required gates name
  check_all_required gates names

-- `status in {"ready", "complete"}`
abbrev pub is_final : String → Bool
is_final status = str_eq status "ready" || str_eq status "complete"

-- The names of the list, if all are non-blank strings.
unfoldable pub gate_names : Items → Option (List String)
gate_names nil = some []
gate_names (cons (str s) xs) =
    let rest = gate_names xs in if is_nonblank s then Option.map (λ names. s ∷ names) rest else none
gate_names (cons _ xs) = none

abbrev pub gate_keys : Gates → List String
gate_keys [] = []
gate_keys ((k, g) ∷ gates) = k ∷ gate_keys gates

-- The part of the function behind the test of the list's shape.
unfoldable pub check_names : Gates → String → List String → Result (Unit {0})
check_names gates status required = do
  require (distinct required) "summary.required_gates must not contain duplicates"
  require (all (λ name. elem name (gate_keys gates)) required)
      "summary.required_gates names missing gates"
  if not (is_final status) then ok tt else (do
    refuse_if (is_empty required) "iteration requires at least one required gate"
    check_all_required gates required)

unfoldable pub required_names : Json → Result (List String)
required_names (arr xs) = elim (gate_names xs) [
  | none ↦ err (refused "summary.required_gates must be a list of non-empty gate names")
  | some names ↦ ok names
]
required_names _ = err (refused "summary.required_gates must be a list of non-empty gate names")

unfoldable pub validate_required_gates : Fields → Gates → String → Result (Unit {0})
validate_required_gates summary gates status =
    if is_null (get "required_gates" summary)
    then refuse_if (is_final status) "iteration requires a non-empty required_gates list"
    else (do
      required ← required_names (get "required_gates" summary)
      check_names gates status required)

-- `gate_counts`: what `rtl-smoke` publishes for one gate.
unfoldable pub gate_counts : Bool → Bool → Counts
gate_counts false passed = record { planned = 1; executed = 0; passed = 0; failed = 0; skipped = 1 }
gate_counts true passed = record {
  planned = 1;
  executed = 1;
  passed = if passed then 1 else 0;
  failed = if passed then 0 else 1;
  skipped = 0;
}
