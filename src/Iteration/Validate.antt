-- ===== src/Iteration/Validate.antt =====
-- `command_validate_iteration` of tools/refactor.py, and the exit status that `main` gives it.
pub mod Sound
use nscscc_cpu.Base.{
  ℕ, Bool, true, false, not, ◌&&◌, String, List, [], ◌∷◌, all, any, leb, has_ink, is_empty,
}
use nscscc_cpu.Result.{
  Result, ok, err, refused, type_error, key_error, ◌>>=◌, ◌>>◌, require, refuse_if,
}
use nscscc_cpu.Json.{Json, null, bool, int, float, str, arr, obj, get, size}
use nscscc_cpu.Iteration.Gate.{is_final}
use nscscc_cpu.Iteration.Host.{Host}
use nscscc_cpu.Iteration.Summary.{validate_summary, text_of}
use nscscc_cpu.Iteration.Commands.{validate_commands}
use nscscc_cpu.Iteration.Artifacts.{validate_artifacts}
use nscscc_cpu.Iteration.Review.{ReviewFiles, validate_review}

-- An iteration's directory, as the run finds it.
pub record Directory : Type 0 where
  pub name : String
  pub has_file : String → Bool
  pub summary_json : Result Json
  pub artifacts_json : Result Json
  pub command_lines : List (List ℕ)
  pub iteration_text : List ℕ
  pub pr_text : List ℕ
  pub review_files : ReviewFiles

abbrev pub required_files : List String
required_files =
    "iteration.md" ∷ "summary.json" ∷ "commands.jsonl" ∷ "artifacts.json" ∷ "pr.md" ∷ []

-- `[\u4e00-\u9fff]`
abbrev pub is_chinese : ℕ → Bool
is_chinese c = leb 0x4e00 c && leb c 0x9fff

pub record Report : Type 0 where
  pub iteration_status : String
  pub command_records : ℕ
  pub artifact_count : ℕ
  pub gate_count : ℕ
  pub review_status : String

-- `len(value)` of the gates, an object by then.
abbrev pub count_gates : Json → ℕ
count_gates (obj fs) = size fs
count_gates _ = 0

unfoldable pub validate_iteration : Host → Directory → Result Report
validate_iteration H d = do
  require (all d.has_file required_files) "iteration is missing required files"
  summary_value ← d.summary_json
  s ← validate_summary H d.name summary_value
  artifacts_value ← d.artifacts_json
  artifact_count ← validate_artifacts H (text_of (get "iteration_id" s.summary)) artifacts_value
  jsonl_count ← validate_commands H d.command_lines
  require (any is_chinese d.iteration_text)
      "iteration.md must contain the required Chinese iteration log"
  require (has_ink d.pr_text) "pr.md must be non-empty"
  review_status ← validate_review H d.review_files s.summary s.status s.current_head
  refuse_if (is_final s.status) "local evidence validation cannot authorize the status"
  ok (record {
    iteration_status = s.status;
    command_records = jsonl_count;
    artifact_count = artifact_count;
    gate_count = count_gates (get "gates" s.summary);
    review_status = review_status;
  })

-- `main`: 0 for a report, 2 for a `RefactorError`, 1 for an exception that nothing catches.
unfoldable pub exit_status : Result Report → ℕ
exit_status (ok report) = 0
exit_status (err (refused message)) = 2
exit_status (err type_error) = 1
exit_status (err key_error) = 1
