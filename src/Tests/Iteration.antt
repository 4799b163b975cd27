-- ===== src/Tests/Iteration.antt =====
-- An iteration that passes, gates that are refused, and the theorems of the validators at them.
use nscscc_cpu.Base.{
  ℕ, ◌<◌, ◌≡◌, ◌≢◌, ◌↔◌, refl, true, false, String, codes, text_eq, words, lines_after, has_ink,
  filter_b, length, [], ◌∷◌, ◌++◌, none, some, pos, ◌==◌, if◌then◌else◌,
}
use nscscc_cpu.Result.{Result, ok, err, key_error, type_error, refused, NoEscape}
use nscscc_cpu.Json.{
  Json, bool, int, str, arr, obj, Items, nil, cons, items, Fields, end, field, get, lookup, has_key,
  py_eq,
}
use nscscc_cpu.Iteration.Require.{
  require_object, require_nonempty_string, require_git_sha, in_set, require_nonnegative_int, index,
}
use nscscc_cpu.Iteration.Gate.{
  validate_gate, validate_required_gates, read_counts, check_counts, required_names, gate_names,
  check_names, check_all_required, check_required, check_gate, lookup_gate, fully_passed,
  greater_than_zero,
}
use nscscc_cpu.Iteration.Gate.Escapes.{HasContainer, validate_gate_escapes_iff}
use nscscc_cpu.Iteration.Gate.Validated.{Accepted, validate_gate-Accepted, validate_gate_iff}
use nscscc_cpu.Iteration.Gate.Required.{
  AllAccepted, RequirementsMet, validate_required_gates-RequirementsMet,
  validate_required_gates-NoEscape,
}
use nscscc_cpu.Iteration.Host.{Host}
use nscscc_cpu.Iteration.Target.{review_target_is_acceptable, Acceptable, review_target_iff}
use nscscc_cpu.Iteration.Summary.{validate_summary, check_head, read_gates, validate_gates}
use nscscc_cpu.Iteration.Commands.{
  validate_commands, count_records, parse_record, validate_record, check_times, check_elapsed,
  has_evidence,
}
use nscscc_cpu.Iteration.Commands.Counted.{AllRecords, validate_commands-AllRecords}
use nscscc_cpu.Iteration.Artifacts.{
  validate_artifacts, validate_list, validate_each, validate_artifact, require_sha256,
  resolve_artifact_path, existing_files, check_id,
}
use nscscc_cpu.Iteration.Artifacts.Verified.{AllVerified, validate_artifacts-AllVerified}
use nscscc_cpu.Iteration.Review.{
  validate_review, read_review, check_claims, matching_events, raw_review_events, collect_events,
  review_event_field, check_outcome, check_pass, check_failure, target_sha, check_target,
}
use nscscc_cpu.Iteration.Review.Passed.{Reviewed, validate_review-Reviewed}
use nscscc_cpu.Iteration.Validate.{Directory, Report, validate_iteration}
use nscscc_cpu.Iteration.Validate.Sound.{Established, validate_iteration-Established}

abbrev sha40 : String
sha40 = "45043bd8a89b0e4dea3911ed609d128252f0319f"

abbrev parent_sha : String
parent_sha = "a158aa8ab4d49cece1a0fe488d7ac7dc02bd8cf6"

abbrev sha64 : String
sha64 = "251d2bba3e659c294c9a004bbb2b542435fcfa0b0c1582cc1a7a3edca765a4c0"

abbrev number : ℕ → Json
number n = int (pos n)

abbrev gate_of : Json → ℕ → ℕ → ℕ → ℕ → ℕ → Fields
gate_of status planned executed passed failed skipped = field "status" status (
    field "planned" (number planned) (
      field "executed" (number executed) (
        field "passed" (number passed)
          (field "failed" (number failed) (field "skipped" (number skipped) end)))))

abbrev good_gate : Fields
good_gate = gate_of (str "pass") 3 3 3 0 0

abbrev summary_fields : Fields
summary_fields = field "iteration_id" (str "20260710-2026-baseline") (
    field "status" (str "blocked") (
      field "base_sha" (str sha40) (
        field "head_sha" (str sha40) (
          field "review_target_sha" (str sha40) (
            field "required_gates" (arr (cons (str "doctor") nil))
              (field "gates" (obj (field "doctor" (obj good_gate) end)) end))))))

abbrev event_fields : Fields
event_fields = field "job_id" (str "job-1") (
    field "status" (str "failed")
      (field "done" (bool true) (field "error" (str "service unavailable") end)))

abbrev provenance_fields : Fields
provenance_fields = field "source" (str "claude-review-mcp") (
    field "raw_path" (str "reviews/claude-raw.md")
      (field "raw_sha256" (str sha64) (field "job_id" (str "job-1") end)))

abbrev review_fields : Fields
review_fields = field "iteration_id" (str "20260710-2026-baseline") (
    field "status" (str "unavailable") (
      field "job_id" (str "job-1") (
        field "raw_sha256" (str sha64) (
          field "provenance" (obj provenance_fields) (
            field "error" (str "service unavailable") (
              field "open_blocking_count" (number 1) (
                field "fresh_against_head" (bool false) (
                  field "allow_ready" (bool false)
                    (field "allow_status_promotion" (bool false) end)))))))))

abbrev command_fields : Fields
command_fields = field "argv" (arr (cons (str "make") (cons (str "test") nil))) (
    field "cwd" (str "/repo") (
      field "exit_code" (number 0)
        (field "elapsed_seconds" (number 12) (field "evidence" (str "evidence/test.log") end))))

abbrev artifact_fields : Fields
artifact_fields =
    field "path" (str "evidence/test.log")
      (field "sha256" (str sha64) (field "size" (number 6045) end))

abbrev artifacts_fields : Fields
artifacts_fields =
    field "iteration_id" (str "20260710-2026-baseline")
      (field "artifacts" (arr (cons (obj artifact_fields) nil)) end)

-- One file, below the iteration; the parser knows two texts.
abbrev host : Host
host = record {
  rev_parse_head = ok (codes sha40);
  rev_list_parents = λ head. ok (head ++ b' ' ∷ codes parent_sha);
  diff_name_only = λ target head. ok (codes "logs\\refactor\\a.md\n\ndocs/refactor/status.yml\n");
  Resolved = ℕ;
  same = λ p q. p == q;
  is_absolute = λ raw. false;
  resolve_absolute = λ raw. none;
  resolve_in_iteration = λ raw. if text_eq raw (codes "evidence/test.log") then some 1 else none;
  resolve_in_repository = λ raw. none;
  within_iteration = λ p. true;
  within_repository = λ p. true;
  is_file = λ p. true;
  file_size = λ p. 6045;
  sha256_file = λ p. codes sha64;
  sha256_bytes = λ bytes. codes sha64;
  read_text = λ bytes. some bytes;
  json_loads = λ line.
      if text_eq line (codes "{event}")
      then some (obj event_fields)
      else if text_eq line (codes "{command}")
      then some (obj command_fields)
      else none;
  Moment = ℕ;
  fromisoformat = λ text. none;
  has_offset = λ m. true;
  before = λ m n. false;
}

abbrev directory : Directory
directory = record {
  name = "20260710-2026-baseline";
  has_file = λ name. true;
  summary_json = ok (obj summary_fields);
  artifacts_json = ok (obj artifacts_fields);
  command_lines = codes "{command}" ∷ codes " " ∷ [];
  iteration_text = 0x672c ∷ 0x8f6e ∷ [];
  pr_text = codes "PR";
  review_files = record {
    raw_is_file = true;
    summary_is_file = true;
    raw_bytes = some (codes "# review\n{event}\n");
    summary_json = ok (obj review_fields);
  };
}

abbrev report : Report
report = record {
  iteration_status = "blocked";
  command_records = 1;
  artifact_count = 1;
  gate_count = 1;
  review_status = "unavailable";
}

-- A run of the command, computed through every function that it calls.
run : Directory → Result Report
unfolding validate_iteration validate_summary require_object require_nonempty_string require_git_sha
    in_set require_nonnegative_int index get lookup has_key py_eq check_head read_gates
    validate_gates validate_gate read_counts check_counts validate_required_gates required_names
    gate_names check_names check_all_required check_required check_gate lookup_gate fully_passed
    greater_than_zero validate_artifacts validate_list validate_each validate_artifact
    require_sha256 resolve_artifact_path existing_files check_id validate_commands count_records
    parse_record validate_record check_times check_elapsed has_evidence validate_review read_review
    check_claims matching_events raw_review_events collect_events review_event_field check_outcome
    check_pass check_failure target_sha check_target review_target_is_acceptable words lines_after
run = validate_iteration host

iteration_passes : validate_iteration host directory ≡ ok report
unfolding run
iteration_passes = refl

iteration-Established : Established host directory report
iteration-Established = validate_iteration-Established host directory report iteration_passes

-- The same evidence with the status ready: the review has not passed.
ready_fields : Directory
ready_fields = record directory {
  summary_json = ok (obj (field "status" (str "ready") summary_fields));
}

ready_refused : run ready_fields ≡ err (refused "iteration requires Claude review status=pass")
unfolding run ready_fields
ready_refused = refl

-- A gate whose status is a list ends the run with an exception that `main` does not catch.
list_status : Directory
list_status = record directory {
  summary_json = ok (
      obj (
        field "gates" (obj (field "doctor" (obj (gate_of (arr nil) 1 1 1 0 0)) end))
          summary_fields));
}

list_status_escapes : run list_status ≡ err type_error
unfolding run list_status
list_status_escapes = refl

listed_gate_escapes :
    ((validate_gate (obj (gate_of (arr nil) 1 1 1 0 0)) ≡ err type_error)
      ↔ HasContainer (obj (gate_of (arr nil) 1 1 1 0 0)))
    × (validate_gate (obj (gate_of (arr nil) 1 1 1 0 0)) ≢ err key_error)
listed_gate_escapes = validate_gate_escapes_iff (obj (gate_of (arr nil) 1 1 1 0 0))

good_gate_iff : (validate_gate (obj good_gate) ≡ ok good_gate) ↔ Accepted (obj good_gate) good_gate
good_gate_iff = validate_gate_iff good_gate

good_gate_passes : validate_gate (obj good_gate) ≡ ok good_gate
unfolding run
good_gate_passes = refl

one_gate : AllAccepted (("doctor", good_gate) ∷ [])
one_gate = (validate_gate-Accepted (obj good_gate) good_gate good_gate_passes, tt)

doctor_required :
    validate_required_gates summary_fields (("doctor", good_gate) ∷ []) "ready" ≡ ok tt
unfolding run
doctor_required = refl

doctor_met : RequirementsMet summary_fields (("doctor", good_gate) ∷ [])
doctor_met =
    validate_required_gates-RequirementsMet summary_fields (("doctor", good_gate) ∷ []) "ready"
      one_gate refl doctor_required

required-NoEscape :
    NoEscape (validate_required_gates summary_fields (("doctor", good_gate) ∷ []) "ready")
required-NoEscape =
    validate_required_gates-NoEscape summary_fields (("doctor", good_gate) ∷ []) "ready" one_gate

parent-Acceptable :
    (review_target_is_acceptable host (codes parent_sha) (codes sha40) ≡ ok tt)
    ↔ Acceptable host (codes parent_sha) (codes sha40)
parent-Acceptable = review_target_iff host (codes parent_sha) (codes sha40)

parent_passes : review_target_is_acceptable host (codes parent_sha) (codes sha40) ≡ ok tt
unfolding run
parent_passes = refl

commands_counted :
    (◌≡◌ {A = ℕ} 1 (length (filter_b has_ink directory.command_lines)))
    × (0 < 1)
    × AllRecords host directory.command_lines
commands_counted = validate_commands-AllRecords host directory.command_lines 1 (unfold run in refl)

artifacts_verified_example :
    (xs : Items) × (get "artifacts" artifacts_fields ≡ arr xs)
    × (◌≡◌ {A = ℕ} 1 (length (items xs)))
    × AllVerified host [] xs
artifacts_verified_example =
    validate_artifacts-AllVerified host "20260710-2026-baseline" artifacts_fields 1
      (unfold run in refl)

review_example :
    Reviewed host directory.review_files summary_fields "blocked" (codes sha40) "unavailable"
review_example =
    validate_review-Reviewed host directory.review_files summary_fields "blocked" (codes sha40)
      "unavailable" (unfold run in refl)
