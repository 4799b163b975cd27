-- ===== src/Iteration/Summary.antt =====
-- `_validate_summary` of tools/refactor.py.
pub mod Accepted
use nscscc_cpu.Base.{
  ℕ, ◌≡◌, Bool, true, false, not, String, List, [], ◌∷◌, codes, text_eq, is_nonblank, str_eq,
  if◌then◌else◌,
}
use nscscc_cpu.Result.{Result, ok, err, refused, ◌>>=◌, ◌>>◌, require, refuse_if}
use nscscc_cpu.Json.{Json, null, bool, int, float, str, arr, obj, Fields, end, field, get, is_null}
use nscscc_cpu.Iteration.Require.{require_object, require_nonempty_string, require_git_sha, in_set}
use nscscc_cpu.Iteration.Gate.{Gates, is_final, validate_gate, validate_required_gates}
use nscscc_cpu.Iteration.Host.{Host}
use nscscc_cpu.Iteration.Target.{review_target_is_acceptable}

abbrev pub iteration_statuses : List String
iteration_statuses = "draft" ∷ "blocked" ∷ "ready" ∷ "complete" ∷ []

-- The loop over `gates_value.items()`.
unfoldable pub validate_gates : Fields → Result Gates
validate_gates end = ok []
validate_gates (field name value fs) = do
  require (is_nonblank name) "summary.gates keys must be non-empty strings"
  gate ← validate_gate value
  gates ← validate_gates fs
  ok ((name, gate) ∷ gates)

-- `not isinstance(gates_value, dict) or not gates_value`
unfoldable pub read_gates : Json → Result Gates
read_gates (obj (field name value fs)) = validate_gates (field name value fs)
read_gates _ = err (refused "summary.gates must be a non-empty object")

-- The text of a status that has been found in a set of texts.
abbrev pub text_of : Json → String
text_of (str s) = s
text_of _ = ""

abbrev pub check_review_target : String → Fields → Result (Unit {0})
check_review_target status summary =
    if is_final status
    then (do require_git_sha (get "review_target_sha" summary); ok tt)
    else if not (is_null (get "review_target_sha" summary))
    then (do require_git_sha (get "review_target_sha" summary); ok tt)
    else ok tt

pub record Summary : Type 0 where
  pub summary : Fields
  pub status : String
  pub current_head : List ℕ

module _ (H : Host) where
  -- The summary must name the current head, or a target from which only evidence has changed.
  unfoldable pub check_head : String → List ℕ → Result (Unit {0})
  check_head head_sha current_head =
      if text_eq (codes head_sha) current_head
      then ok tt
      else review_target_is_acceptable H (codes head_sha) current_head

  -- `directory` is the name of the iteration's directory.
  unfoldable pub validate_summary : String → Json → Result Summary
  validate_summary directory value = do
    summary ← require_object value
    iteration_id ← require_nonempty_string (get "iteration_id" summary)
    require (str_eq iteration_id directory) "summary.iteration_id does not match directory name"
    known ← in_set iteration_statuses (get "status" summary)
    require known "summary.status must be one of the iteration statuses"
    let status = text_of (get "status" summary)
    require_git_sha (get "base_sha" summary)
    head_sha ← require_git_sha (get "head_sha" summary)
    current_head ← H.rev_parse_head
    check_head head_sha current_head
    gates ← read_gates (get "gates" summary)
    validate_required_gates summary gates status
    check_review_target status summary
    ok (record { summary = summary; status = status; current_head = current_head })
