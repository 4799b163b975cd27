-- ===== src/Iteration/Review/Passed.antt =====
-- What `_validate_review` guarantees of the review that it accepts.
use nscscc_cpu.Base.{
  ℕ, ◌≡◌, refl, subst, sym, ◌∙◌, ap, Bool, true, false, not, ◌&&◌, String, List, codes, text_eq,
  text_eq-eq, any, all, contains, lower, is_empty, ◌==◌, Option, some, arith, Bool-cases, inl, inr,
  ◌⊎◌, pos, if◌then◌else◌, has_ink, ==_iff,
}
use nscscc_cpu.Result.{ok, >>=-returns, require, require-eq-ok, ok-injective}
use nscscc_cpu.Json.{Json, int, str, obj, Fields, get, is_text, is_true, py_eq}
use nscscc_cpu.Iteration.Require.{
  require_object, require_nonempty_string, require_git_sha, require_nonnegative_int, in_set, index,
  require_nonnegative_int-eq-ok, require_object-eq-ok, require_nonempty_string-eq-ok,
  require_git_sha-eq-ok,
}
use nscscc_cpu.Iteration.Host.{Host}
use nscscc_cpu.Iteration.Target.{Acceptable, review_target_iff}
use nscscc_cpu.Iteration.Gate.{is_final}
use nscscc_cpu.Iteration.Summary.{text_of}
use nscscc_cpu.Iteration.Artifacts.{require_sha256}
use nscscc_cpu.Iteration.Artifacts.Verified.{require_sha256-eq-ok}
use nscscc_cpu.Iteration.Review.{
  ReviewFiles, Provenance, own_or_reviewer, review_statuses, provenance_matches, readable,
  is_passing_event, pass_flags, target_sha, check_target, check_pass, check_failure, read_review,
  check_claims, matching_events, check_outcome, validate_review,
}

-- The reviewed commit is the target of the summary, and may be reviewed at the current head.
pub record IsTarget (H : Host) (summary : Fields) (current : List ℕ) (reviewed : String)
    : Type 0 where
  pub target : Json
  pub named : target_sha summary ≡ ok target
  pub same : is_text reviewed target ≡ true
  pub acceptable : Acceptable H (codes reviewed) current

module _ (H : Host) (summary : Fields) (current : List ℕ) where
  check_target-IsTarget :
      (reviewed : String)
      → check_target H summary current reviewed ≡ ok tt
      → IsTarget H summary current reviewed
  unfolding check_target
  check_target-IsTarget reviewed h =
      let (target, named, h₁) = >>=-returns (target_sha summary) _ h in
      let (_, e, h₂) = >>=-returns (require (is_text reviewed target) _) _ h₁ in
      record {
        target = target;
        named = named;
        same = require-eq-ok _ _ e;
        acceptable = (review_target_iff H (codes reviewed) current).0 h₂;
      }

  -- What the two branches require of the review and of the events that name its job.
  pub record Passed (review : Fields) (p : Provenance) (matching : List Fields) : Type 0 where
    pub provider : String
    pub provider_named : p.provider ≡ str provider
    pub model : String
    pub model_named : p.model ≡ str model
    pub claude : contains (codes "claude") (lower (codes model)) ≡ true
    pub reviewed : String
    pub reviewed_named : p.reviewed_head ≡ str reviewed
    pub target : IsTarget H summary current reviewed
    pub event : any (is_passing_event provider model) matching ≡ true
    pub not_blocked : get "open_blocking_count" review ≡ int (pos 0)
    pub flags : all (λ flag. is_true (get flag review)) pass_flags ≡ true

  check_pass-Passed :
      (review : Fields) (p : Provenance) (matching : List Fields)
      → check_pass H summary review p matching current ≡ ok tt
      → Passed review p matching
  unfolding check_pass
  check_pass-Passed review p matching h =
      let (provider, e₁, h₁) = >>=-returns (require_nonempty_string p.provider) _ h in
      let (model, e₂, h₂) = >>=-returns (require_nonempty_string p.model) _ h₁ in
      let (_, e₃, h₃) =
        >>=-returns (require (contains (codes "claude") (lower (codes model))) _) _ h₂ in
      let (reviewed, e₄, h₄) = >>=-returns (require_git_sha p.reviewed_head) _ h₃ in
      let (_, e₅, h₅) = >>=-returns (check_target H summary current reviewed) _ h₄ in
      let (_, e₆, h₆) =
        >>=-returns (require (any (is_passing_event provider model) matching) _) _ h₅ in
      let (blocking, e₇, h₇) =
        >>=-returns (require_nonnegative_int (get "open_blocking_count" review)) _ h₆ in
      let (_, e₈, h₈) = >>=-returns (require (blocking == 0) _) _ h₇ in
      let none_left = (==_iff blocking 0).0 (require-eq-ok _ _ e₈) in
      record {
        provider = provider;
        provider_named = require_nonempty_string-eq-ok p.provider provider e₁;
        model = model;
        model_named = require_nonempty_string-eq-ok p.model model e₂;
        claude = require-eq-ok _ _ e₃;
        reviewed = reviewed;
        reviewed_named = require_git_sha-eq-ok p.reviewed_head reviewed e₄;
        target = check_target-IsTarget reviewed e₅;
        event = require-eq-ok _ _ e₆;
        not_blocked = rw (require_nonnegative_int-eq-ok _ blocking e₇, none_left);
        flags = require-eq-ok _ _ h₈;
      }

-- The claims of a review: each is the review's own field, the digest is the one of the raw text, and
-- the provenance repeats them.
pub record Claimed (raw_sha256 : List ℕ) (summary review : Fields) (p : Provenance) : Type 0 where
  pub digest : raw_sha256 ≡ codes p.raw_sha
  pub raw_sha : get "raw_sha256" review ≡ str p.raw_sha
  pub job_id : get "job_id" review ≡ str p.job_id
  pub provider : p.provider ≡ own_or_reviewer "provider" review
  pub model : p.model ≡ own_or_reviewer "model" review
  pub reviewed_head : p.reviewed_head ≡ get "reviewed_head_sha" review
  pub iteration : Json
  pub of_summary : index "iteration_id" summary ≡ ok iteration
  pub same_iteration : py_eq (get "iteration_id" review) iteration ≡ true
  pub provenance : Fields
  pub provenance_read : get "provenance" review ≡ obj provenance
  pub repeated : provenance_matches provenance p ≡ true

-- What is known of an accepted review whose status is `result`.
pub record Reviewed (H : Host) (files : ReviewFiles) (summary : Fields) (status : String)
    (current : List ℕ) (result : String) : Type 0 where
  pub review : Fields
  pub read : files.summary_json ≡ ok (obj review)
  pub raw_bytes : List ℕ
  pub bytes_read : files.raw_bytes ≡ some raw_bytes
  pub raw_text : List ℕ
  pub raw_read : H.read_text raw_bytes ≡ some raw_text
  pub p : Provenance
  pub claims : Claimed (H.sha256_bytes raw_bytes) summary review p
  pub confirmed : is_empty (matching_events H raw_text p.job_id) ≡ false
  pub outcome :
      ((is_text "pass" (get "status" review) ≡ true)
        × Passed H summary current review p (matching_events H raw_text p.job_id))
      ⊎ ((is_text "pass" (get "status" review) ≡ false) × (is_final status ≡ false))
  pub result_text : result ≡ text_of (get "status" review)

readable-eq-ok : (o : Option (List ℕ)) (t : List ℕ) → readable o ≡ ok t → o ≡ some t
readable-eq-ok o t h = ground arith

pub not-true : (b : Bool) → not b ≡ true → b ≡ false
not-true b h = ground arith

check_failure-not_final :
    (H : Host) (summary : Fields) (status : String) (review : Fields) (p : Provenance)
    (matching : List Fields) (current : List ℕ)
    → check_failure H summary status review p matching current ≡ ok tt
    → is_final status ≡ false
unfolding check_failure
check_failure-not_final H summary status review p matching current h =
    let (_, e, _) = >>=-returns (require (not (is_final status)) _) _ h in
    not-true (is_final status) (require-eq-ok _ _ e)

module _ (H : Host) (summary : Fields) (status : String) (current : List ℕ) (review : Fields)
    (p : Provenance) (matching : List Fields) where
  branch_outcome :
      (if is_text "pass" (get "status" review)
          then check_pass H summary review p matching current
          else check_failure H summary status review p matching current)
        ≡ ok tt
      → ((is_text "pass" (get "status" review) ≡ true) × Passed H summary current review p matching)
        ⊎ ((is_text "pass" (get "status" review) ≡ false) × (is_final status ≡ false))
  branch_outcome h = elim (Bool-cases (is_text "pass" (get "status" review))) [
    | inl pass ↦ inl (pass, check_pass-Passed H summary current review p matching (rw pass at h))
    | inr fail ↦
        inr
          (fail, check_failure-not_final H summary status review p matching current (rw fail at h))
  ]

read_review-parts :
    (H : Host) (files : ReviewFiles) (raw_bytes raw_text : List ℕ) (review : Fields)
    → read_review H files ≡ ok (raw_bytes, raw_text, review)
    → (files.raw_bytes ≡ some raw_bytes)
      × (H.read_text raw_bytes ≡ some raw_text)
      × (files.summary_json ≡ ok (obj review))
unfolding read_review
read_review-parts H files raw_bytes raw_text review h =
    let (_, _, h₁) = >>=-returns (require (files.raw_is_file && files.summary_is_file) _) _ h in
    let (bytes, e₂, h₂) = >>=-returns (readable files.raw_bytes) _ h₁ in
    let (raw, e₃, h₃) = >>=-returns (readable (H.read_text bytes)) _ h₂ in
    let (_, _, h₄) = >>=-returns (require (has_ink raw) _) _ h₃ in
    let (document, e₅, h₅) = >>=-returns files.summary_json _ h₄ in
    let (fs, e₆, h₆) = >>=-returns (require_object document) _ h₅ in
    let same : (bytes, raw, fs) ≡ (raw_bytes, raw_text, review) = ok-injective _ _ h₆ in
    subst
      (λ (x : List ℕ × List ℕ × Fields).
        (files.raw_bytes ≡ some x.0)
        × (H.read_text x.0 ≡ some x.1)
        × (files.summary_json ≡ ok (obj x.2)))
      same
      (
        readable-eq-ok files.raw_bytes bytes e₂,
        readable-eq-ok (H.read_text bytes) raw e₃,
        e₅ ∙ ap ok (require_object-eq-ok document fs e₆),
      )

check_claims-Claimed :
    (raw_sha256 : List ℕ) (summary review : Fields) (p : Provenance)
    → check_claims raw_sha256 summary review ≡ ok p
    → Claimed raw_sha256 summary review p
unfolding check_claims
check_claims-Claimed raw_sha256 summary review p h =
    let (id, e₆, h₆) = >>=-returns (index "iteration_id" summary) _ h in
    let (_, e₇, h₇) = >>=-returns (require (py_eq (get "iteration_id" review) id) _) _ h₆ in
    let (known, _, h₈) = >>=-returns (in_set review_statuses (get "status" review)) _ h₇ in
    let (_, _, h₉) = >>=-returns (require known _) _ h₈ in
    let (job_id, e₁₀, h₁₀) = >>=-returns (require_nonempty_string (get "job_id" review)) _ h₉ in
    let (raw_sha, e₁₁, h₁₁) = >>=-returns (require_sha256 (get "raw_sha256" review)) _ h₁₀ in
    let (_, e₁₂, h₁₂) = >>=-returns (require (text_eq (codes raw_sha) raw_sha256) _) _ h₁₁ in
    let (provenance, e₁₃, h₁₃) = >>=-returns (require_object (get "provenance" review)) _ h₁₂ in
    let (_, e₁₄, h₁₄) = >>=-returns (require (provenance_matches provenance _) _) _ h₁₃ in
    subst (λ (q : Provenance). Claimed raw_sha256 summary review q) (ok-injective _ p h₁₄)
      (record {
        digest = sym (text_eq-eq _ _ (require-eq-ok _ _ e₁₂));
        raw_sha = require_sha256-eq-ok _ raw_sha e₁₁;
        job_id = require_nonempty_string-eq-ok _ job_id e₁₀;
        provider = refl;
        model = refl;
        reviewed_head = refl;
        iteration = id;
        of_summary = e₆;
        same_iteration = require-eq-ok _ _ e₇;
        provenance = provenance;
        provenance_read = require_object-eq-ok _ provenance e₁₃;
        repeated = require-eq-ok _ _ e₁₄;
      })

-- An accepted review names its own iteration, its job_id and its raw_sha256, which is the digest of
-- the raw file's bytes; its provenance repeats these with its provider, model and reviewed head, and
-- the raw text has an event that names the job. If its status is pass, its reviewed head is the
-- target, which may be reviewed at the current head, and a terminal event of its provider and model
-- confirms it, with no open blocking finding; if not, the iteration is neither ready nor complete.
pub validate_review-Reviewed :
    (H : Host) (files : ReviewFiles) (summary : Fields) (status : String) (current : List ℕ)
    (result : String)
    → validate_review H files summary status current ≡ ok result
    → Reviewed H files summary status current result
unfolding validate_review check_outcome
validate_review-Reviewed H files summary status current result h =
    let ((raw_bytes, raw_text, review), e₁, h₁) = >>=-returns (read_review H files) _ h in
    let (p, e₂, h₂) = >>=-returns (check_claims (H.sha256_bytes raw_bytes) summary review) _ h₁ in
    let matching = matching_events H raw_text p.job_id in
    let (_, e₃, h₃) = >>=-returns (check_outcome H summary status review p matching current) _ h₂ in
    let (_, e₄, h₄) = >>=-returns (require (not (is_empty matching)) _) _ e₃ in
    let (bytes_read, raw_read, read) = read_review-parts H files raw_bytes raw_text review e₁ in
    record {
      review = review;
      read = read;
      raw_bytes = raw_bytes;
      bytes_read = bytes_read;
      raw_text = raw_text;
      raw_read = raw_read;
      p = p;
      claims = check_claims-Claimed (H.sha256_bytes raw_bytes) summary review p e₂;
      confirmed = not-true (is_empty matching) (require-eq-ok _ _ e₄);
      outcome = branch_outcome H summary status current review p matching h₄;
      result_text = sym (ok-injective _ _ h₃);
    }
