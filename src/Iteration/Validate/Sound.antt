-- ===== src/Iteration/Validate/Sound.antt =====
-- What a run of `validate-iteration` that reports success has established.
use nscscc_cpu.Base.{
  ℕ, ◌<◌, ◌≡◌, refl, ◌∙◌, ap, subst, false, not, String, [], has_ink, all, any, length, filter_b,
}
use nscscc_cpu.Result.{ok, >>=-returns, require, require-eq-ok, ok-injective}
use nscscc_cpu.Json.{Json, arr, obj, Fields, Items, items, get}
use nscscc_cpu.Iteration.Require.{require_object}
use nscscc_cpu.Iteration.Gate.{is_final}
use nscscc_cpu.Iteration.Host.{Host}
use nscscc_cpu.Iteration.Summary.{Summary, validate_summary, text_of}
use nscscc_cpu.Iteration.Summary.Accepted.{IsAccepted, validate_summary-IsAccepted}
use nscscc_cpu.Iteration.Commands.{validate_commands}
use nscscc_cpu.Iteration.Commands.Counted.{AllRecords, validate_commands-AllRecords}
use nscscc_cpu.Iteration.Artifacts.{validate_artifacts}
use nscscc_cpu.Iteration.Artifacts.Verified.{AllVerified, validate_artifacts-AllVerified}
use nscscc_cpu.Iteration.Review.{validate_review}
use nscscc_cpu.Iteration.Review.Passed.{Reviewed, not-true, validate_review-Reviewed}
use nscscc_cpu.Iteration.Validate.{
  Directory, Report, required_files, is_chinese, validate_iteration,
}

module _ (H : Host) (d : Directory) where
  -- What the report rests on.
  pub record Established (report : Report) : Type 0 where
    pub s : Summary
    pub summary : d.summary_json ≡ ok (obj s.summary)
    pub accepted : IsAccepted H d.name s
    pub status : report.iteration_status ≡ s.status
    pub not_final : is_final report.iteration_status ≡ false
    pub artifacts_document : Fields
    pub artifacts_read : d.artifacts_json ≡ ok (obj artifacts_document)
    pub artifacts : Items
    pub artifacts_listed : get "artifacts" artifacts_document ≡ arr artifacts
    pub artifact_count : report.artifact_count ≡ length (items artifacts)
    pub verified : AllVerified H [] artifacts
    pub command_records : report.command_records ≡ length (filter_b has_ink d.command_lines)
    pub some_command : 0 < report.command_records
    pub commands : AllRecords H d.command_lines
    pub reviewed : Reviewed H d.review_files s.summary s.status s.current_head report.review_status

  artifacts_verified :
      (id : String) (value : Json) (n : ℕ)
      → validate_artifacts H id value ≡ ok n
      → (document : Fields) × (value ≡ obj document)
        × (xs : Items) × (get "artifacts" document ≡ arr xs)
        × (n ≡ length (items xs))
        × AllVerified H [] xs
  artifacts_verified id (obj document) n h =
      let (xs, listed, count, verified) = validate_artifacts-AllVerified H id document n h in
      (document, refl, xs, listed, count, verified)
  artifacts_verified id _ n h = unfold validate_artifacts require_object in cc

  -- A run that reports success has read a summary of this directory whose status is draft or
  -- blocked and whose gates, head and required gates are in order; every entry of artifacts.json is an
  -- existing file with the declared size and digest; every line of commands.jsonl that is not blank
  -- is a valid record, and there is one; and the review is confirmed by its raw text.
  pub validate_iteration-Established :
      (report : Report) → validate_iteration H d ≡ ok report → Established report
  unfolding validate_iteration
  validate_iteration-Established report h =
      let (_, _, h₁) = >>=-returns (require (all d.has_file required_files) _) _ h in
      let (summary_value, e₂, h₂) = >>=-returns d.summary_json _ h₁ in
      let (s, e₃, h₃) = >>=-returns (validate_summary H d.name summary_value) _ h₂ in
      let (artifacts_value, e₄, h₄) = >>=-returns d.artifacts_json _ h₃ in
      let id = text_of (get "iteration_id" s.summary) in
      let (artifact_count, e₅, h₅) = >>=-returns (validate_artifacts H id artifacts_value) _ h₄ in
      let (jsonl_count, e₆, h₆) = >>=-returns (validate_commands H d.command_lines) _ h₅ in
      let (_, _, h₇) = >>=-returns (require (any is_chinese d.iteration_text) _) _ h₆ in
      let (_, _, h₈) = >>=-returns (require (has_ink d.pr_text) _) _ h₇ in
      let (review_status, e₉, h₉) =
        >>=-returns (validate_review H d.review_files s.summary s.status s.current_head) _ h₈ in
      let (_, e₁₀, h₁₀) = >>=-returns (require (not (is_final s.status)) _) _ h₉ in
      let (object, accepted) = validate_summary-IsAccepted H d.name summary_value s e₃ in
      let (artifacts_document, is_object, xs, listed, xs_count, verified) =
        artifacts_verified id artifacts_value artifact_count e₅ in
      let (lines_count, positive, records) =
        validate_commands-AllRecords H d.command_lines jsonl_count e₆ in
      subst (λ (r : Report). Established r) (ok-injective _ _ h₁₀)
        (record {
          s = s;
          summary = e₂ ∙ ap ok object;
          accepted = accepted;
          status = refl;
          not_final = not-true (is_final s.status) (require-eq-ok _ _ e₁₀);
          artifacts_document = artifacts_document;
          artifacts_read = e₄ ∙ ap ok is_object;
          artifacts = xs;
          artifacts_listed = listed;
          artifact_count = xs_count;
          verified = verified;
          command_records = lines_count;
          some_command = positive;
          commands = records;
          reviewed =
              validate_review-Reviewed H d.review_files s.summary s.status s.current_head
                review_status e₉;
        })
