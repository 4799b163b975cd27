-- ===== src/Iteration/Review.antt =====
-- `_raw_review_events`, `_review_event_field` and `_validate_review` of tools/refactor.py.
pub mod Passed
use nscscc_cpu.Base.{
  ℕ, Bool, true, false, not, ◌&&◌, ◌||◌, String, str_eq, List, [], ◌∷◌, ◌++◌, codes, text_eq, any,
  all, map, filter_b, elem, is_hex_text, is_empty, ◌==◌, ltb, if◌then◌else◌, Option, none, some,
  has_ink, strip, splitlines, has_prefix, has_suffix, contains, lower, ℤ, pos,
}
use nscscc_cpu.Result.{Result, ok, err, refused, ◌>>=◌, ◌>>◌, require, refuse_if}
use nscscc_cpu.Json.{
  Json, null, bool, int, float, str, arr, obj, Fields, end, get, has_key, lookup, or_null, py_eq,
  is_text, is_true, is_false, is_null,
}
use nscscc_cpu.Iteration.Require.{
  require_object, require_nonempty_string, require_git_sha, require_nonnegative_int, in_set, index,
}
use nscscc_cpu.Iteration.Host.{Host}
use nscscc_cpu.Iteration.Target.{review_target_is_acceptable}
use nscscc_cpu.Iteration.Artifacts.{require_sha256}
use nscscc_cpu.Iteration.Commands.{has_evidence}
use nscscc_cpu.Iteration.Gate.{is_final}
use nscscc_cpu.Iteration.Summary.{text_of}

-- The two files of the review, as the run finds them.
pub record ReviewFiles : Type 0 where
  pub raw_is_file : Bool
  pub summary_is_file : Bool
  -- `none` where the file cannot be read
  pub raw_bytes : Option (List ℕ)
  pub summary_json : Result Json

abbrev pub review_raw_path : String
review_raw_path = "reviews/claude-raw.md"

-- `value not in events`, for dicts
abbrev pub known_event : Fields → List Fields → Bool
known_event value events = any (λ event. py_eq (obj event) (obj value)) events

-- `events.append(value)` for a dict that is new
abbrev pub with_event : List Fields → Option Json → List Fields
with_event events (some (obj value)) =
    if known_event value events then events else events ++ value ∷ []
with_event events _ = events

-- A text that may hold a JSON object.
abbrev pub looks_like_object : List ℕ → Bool
looks_like_object text = has_prefix (codes "{") text && has_suffix (codes "}") text

-- `event[snake]` if it is there, else `event.get(camel)`.
unfoldable pub review_event_field : Fields → String → Option String → Json
review_event_field event snake camel = elim (lookup snake event) [
  | some value ↦ value
  | none ↦ elim camel [ none ↦ null | some key ↦ get key event ]
]

-- `str(value).lower() in {...}`: the text of a value that is no string is never one of the words,
-- and no character outside ASCII has a letter of these words for its lower case.
abbrev pub is_word_of : List String → Json → Bool
is_word_of names (str s) = any (λ name. text_eq (lower (codes s)) (codes name)) names
is_word_of names _ = false

module _ (H : Host) where
  -- The loop over the candidates.
  unfoldable pub collect_events : List Fields → List (List ℕ) → List Fields
  collect_events events [] = events
  collect_events events (candidate ∷ rest) =
      collect_events
        (if looks_like_object candidate then with_event events (H.json_loads candidate) else events)
        rest

  unfoldable pub raw_review_events : List ℕ → List Fields
  raw_review_events raw_text = collect_events [] (strip raw_text ∷ map strip (splitlines raw_text))

-- `review.get(key, reviewer.get(key))`
abbrev pub own_or_reviewer : String → Fields → Json
own_or_reviewer key review =
    if has_key key review then get key review else get key (reviewer_of (get "reviewer" review))
  where
    reviewer_of : Json → Fields
    reviewer_of (obj fs) = fs
    reviewer_of _ = end

-- What the raw text of the review must confirm.
pub record Provenance : Type 0 where
  pub raw_sha : String
  pub job_id : String
  pub provider : Json
  pub model : Json
  pub reviewed_head : Json

abbrev pub expected_provenance : Provenance → List (String × Json)
expected_provenance p =
    ("source", str "claude-review-mcp")
    ∷ ("raw_path", str review_raw_path)
    ∷ ("raw_sha256", str p.raw_sha)
    ∷ ("job_id", str p.job_id)
    ∷ ("provider", p.provider)
    ∷ ("model", p.model)
    ∷ ("reviewed_head_sha", p.reviewed_head)
    ∷ []

abbrev pub provenance_matches : Fields → Provenance → Bool
provenance_matches provenance p =
    all (λ (key, expected). py_eq (get key provenance) expected) (expected_provenance p)

-- `summary.get("review_target_sha", summary["head_sha"])`; the default is looked up first.
unfoldable pub target_sha : Fields → Result Json
target_sha summary = do
  head_sha ← index "head_sha" summary
  ok (if has_key "review_target_sha" summary then get "review_target_sha" summary else head_sha)

abbrev pub pass_words : List String
pass_words = "pass" ∷ "passed" ∷ "completed" ∷ "succeeded" ∷ []

abbrev pub failure_words : List String
failure_words = "failed" ∷ "error" ∷ "unavailable" ∷ []

-- An event that ends a passing review by this provider and model, with a response.
abbrev pub is_passing_event : String → String → Fields → Bool
is_passing_event provider model event =
    is_word_of pass_words (get "status" event)
    && is_true (get "done" event)
    && is_text provider (review_event_field event "provider" none)
    && is_text model (review_event_field event "model" none)
    && has_evidence (get "response" event)

-- An event that ends a review that failed with this error.
abbrev pub is_failing_event : String → Fields → Bool
is_failing_event error_text event =
    is_word_of failure_words (get "status" event)
    && is_true (get "done" event)
    && is_text error_text (get "error" event)

-- The three flags of a passing review, and the two of a failed one.
abbrev pub pass_flags : List String
pass_flags = "fresh_against_head" ∷ "allow_ready" ∷ "allow_status_promotion" ∷ []

-- The target that both branches compare the reviewed head with.
unfoldable pub check_target : Host → Fields → List ℕ → String → Result (Unit {0})
check_target H summary current_head reviewed_head = do
  target ← target_sha summary
  require (is_text reviewed_head target)
      "reviewed_head_sha does not match the iteration review target"
  review_target_is_acceptable H (codes reviewed_head) current_head

-- The branch of `status == "pass"`.
unfoldable pub check_pass :
    Host → Fields → Fields → Provenance → List Fields → List ℕ → Result (Unit {0})
check_pass H summary review p matching current_head = do
  provider ← require_nonempty_string p.provider
  model ← require_nonempty_string p.model
  require (contains (codes "claude") (lower (codes model)))
      "a passing Claude review must identify a Claude model"
  reviewed_head ← require_git_sha p.reviewed_head
  check_target H summary current_head reviewed_head
  require (any (is_passing_event provider model) matching)
      "Claude raw review lacks a matching successful terminal event and response"
  blocking ← require_nonnegative_int (get "open_blocking_count" review)
  require (blocking == 0) "a passing Claude review cannot have open blocking findings"
  require (all (λ flag. is_true (get flag review)) pass_flags)
      "a passing Claude review requires the flag"

-- The other branch: a failed or unavailable review.
unfoldable pub check_failure :
    Host → Fields → String → Fields → Provenance → List Fields → List ℕ → Result (Unit {0})
check_failure H summary status review p matching current_head = do
  refuse_if (is_final status) "iteration requires Claude review status=pass"
  error_text ← require_nonempty_string (get "error" review)
  require (any (is_failing_event error_text) matching)
      "Claude unavailable/failed summary is not supported by its raw terminal event"
  blocking ← require_nonnegative_int (get "open_blocking_count" review)
  require (ltb 0 blocking)
      "an unavailable/failed Claude review must record an open blocking finding"
  require (is_false (get "fresh_against_head" review))
      "an unavailable/failed Claude review must not claim freshness"
  require (is_false (get "allow_ready" review) && is_false (get "allow_status_promotion" review))
      "an unavailable/failed Claude review requires the flag to be false"
  if is_null p.reviewed_head then ok tt else (do
    reviewed_head ← require_git_sha p.reviewed_head
    check_target H summary current_head reviewed_head)

abbrev pub review_statuses : List String
review_statuses = "pass" ∷ "failed" ∷ "unavailable" ∷ []

abbrev pub readable : Option (List ℕ) → Result (List ℕ)
readable none = err (refused "cannot read Claude raw review")
readable (some text) = ok text

-- The two files: the bytes and the raw text and the object of the summary.
unfoldable pub read_review : Host → ReviewFiles → Result (List ℕ × List ℕ × Fields)
read_review H files = do
  require (files.raw_is_file && files.summary_is_file)
      "iteration requires Claude review attempt evidence"
  raw_bytes ← readable files.raw_bytes
  raw_text ← readable (H.read_text raw_bytes)
  require (has_ink raw_text) "reviews/claude-raw.md must be non-empty"
  document ← files.summary_json
  review ← require_object document
  ok (raw_bytes, raw_text, review)

-- The claims that the review makes about itself, from its iteration to its provenance.
unfoldable pub check_claims : List ℕ → Fields → Fields → Result Provenance
check_claims raw_sha256 summary review = do
  iteration_id ← index "iteration_id" summary
  require (py_eq (get "iteration_id" review) iteration_id)
      "Claude review iteration_id does not match summary.iteration_id"
  known ← in_set review_statuses (get "status" review)
  require known "Claude review status must be pass, failed, or unavailable"
  job_id ← require_nonempty_string (get "job_id" review)
  expected_raw_sha ← require_sha256 (get "raw_sha256" review)
  require (text_eq (codes expected_raw_sha) raw_sha256)
      "Claude review raw_sha256 does not match reviews/claude-raw.md"
  provenance ← require_object (get "provenance" review)
  let p : Provenance = record {
    raw_sha = expected_raw_sha;
    job_id = job_id;
    provider = own_or_reviewer "provider" review;
    model = own_or_reviewer "model" review;
    reviewed_head = get "reviewed_head_sha" review;
  }
  require (provenance_matches provenance p) "Claude review provenance mismatch"
  ok p

-- The events of the raw text that name the job.
unfoldable pub matching_events : Host → List ℕ → String → List Fields
matching_events H raw_text job_id =
    filter_b (λ event. is_text job_id (review_event_field event "job_id" (some "jobId")))
      (raw_review_events H raw_text)

-- The rest: the events, and the branch on the review's status.
unfoldable pub check_outcome :
    Host → Fields → String → Fields → Provenance → List Fields → List ℕ → Result (Unit {0})
check_outcome H summary status review p matching current_head = do
  refuse_if (is_empty matching) "Claude raw review contains no structured event for summary.job_id"
  if is_text "pass" (get "status" review)
      then check_pass H summary review p matching current_head
      else check_failure H summary status review p matching current_head

unfoldable pub validate_review : Host → ReviewFiles → Fields → String → List ℕ → Result String
validate_review H files summary status current_head = do
  parts ← read_review H files
  let (raw_bytes, raw_text, review) = parts
  p ← check_claims (H.sha256_bytes raw_bytes) summary review
  check_outcome H summary status review p (matching_events H raw_text p.job_id) current_head
  ok (text_of (get "status" review))
