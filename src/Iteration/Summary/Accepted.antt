-- ===== src/Iteration/Summary/Accepted.antt =====
-- What `_validate_summary` guarantees of the summary that it accepts.
use nscscc_cpu.Base.{
  ℕ, ◌≡◌, refl, true, false, String, str_eq, eq_iff, List, [], ◌∷◌, codes, text_eq, text_eq-eq,
  elem, any, arith, Bool-cases, inl, inr, length, is_nonblank, suc, ap, subst, sym, ◌∙◌,
}
use nscscc_cpu.Result.{ok, >>=-returns, require, require-eq-ok, ok-injective}
use nscscc_cpu.Json.{
  Json, null, bool, int, float, str, obj, arr, Fields, end, field, get, is_text, size,
}
use nscscc_cpu.Iteration.Require.{
  require_object, require_nonempty_string, require_git_sha, require_git_sha-eq-ok, in_set,
  require_object-eq-ok, require_nonempty_string-eq-ok,
}
use nscscc_cpu.Iteration.Gate.{Gates, is_final, validate_gate, validate_required_gates}
use nscscc_cpu.Iteration.Gate.Validated.{Accepted, validate_gate-Accepted}
use nscscc_cpu.Iteration.Gate.Required.{
  AllAccepted, RequirementsMet, validate_required_gates-RequirementsMet,
}
use nscscc_cpu.Iteration.Host.{Host}
use nscscc_cpu.Iteration.Target.{Acceptable, review_target_iff}
use nscscc_cpu.Iteration.Summary.{
  Summary, iteration_statuses, validate_gates, read_gates, text_of, check_head, check_review_target,
  validate_summary,
}

validate_gates-AllAccepted :
    (fs : Fields) (gates : Gates)
    → validate_gates fs ≡ ok gates
    → AllAccepted gates × (length gates ≡ size fs)
unfolding validate_gates
validate_gates-AllAccepted end gates h = ground arith
validate_gates-AllAccepted (field name value fs) gates h =
    let (_, _, h₁) = >>=-returns (require (is_nonblank name) _) _ h in
    let (gate, e, h₂) = >>=-returns (validate_gate value) _ h₁ in
    let (rest, f, h₃) = >>=-returns (validate_gates fs) _ h₂ in
    let a = validate_gate-Accepted value gate e in
    let (below, size_below) = validate_gates-AllAccepted fs rest f in
    subst (λ (gs : Gates). AllAccepted gs × (length gs ≡ suc (size fs))) (ok-injective _ _ h₃)
      ((subst (λ (v : Json). Accepted v gate) a.object a, below), ap suc size_below)

read_gates-AllAccepted :
    (v : Json) (gates : Gates)
    → read_gates v ≡ ok gates
    → AllAccepted gates × ((fs : Fields) × (v ≡ obj fs) × (length gates ≡ size fs))
unfolding read_gates
read_gates-AllAccepted (obj (field name value fs)) gates h =
    let (accepted, count) = validate_gates-AllAccepted (field name value fs) gates h in
    (accepted, (field name value fs, refl, count))
read_gates-AllAccepted (obj end) gates h = cc
read_gates-AllAccepted _ gates h = cc

-- The facts about an accepted summary: its identity and status, its head, its gates and, for a
-- final status, its required gates.
pub record IsAccepted (H : Host) (directory : String) (s : Summary) : Type 0 where
  pub iteration_id : get "iteration_id" s.summary ≡ str directory
  pub status : get "status" s.summary ≡ str s.status
  pub known : elem s.status iteration_statuses ≡ true
  pub head_sha : String
  pub head : get "head_sha" s.summary ≡ str head_sha
  pub acceptable : Acceptable H (codes head_sha) s.current_head
  pub gates : Gates
  pub read : read_gates (get "gates" s.summary) ≡ ok gates
  pub valid_gates : AllAccepted gates
  pub requirements : is_final s.status ≡ true → RequirementsMet s.summary gates

any-text :
    (names : List String) (t : String) → any (λ name. is_text name (str t)) names ≡ elem t names
any-text [] t = refl
any-text (x ∷ xs) t = ground (arith, any-text xs t)

any-false : (names : List String) → any (λ name. false) names ≡ false
any-false [] = refl
any-false (x ∷ xs) = any-false xs

in_set-text :
    (names : List String) (v : Json)
    → in_set names v ≡ ok true
    → (v ≡ str (text_of v)) × (elem (text_of v) names ≡ true)
unfolding in_set
in_set-text names (str t) h = (refl, sym (any-text names t) ∙ ok-injective _ _ h)
in_set-text names null h = absurd (cc (any-false names, h))
in_set-text names (bool b) h = absurd (cc (any-false names, h))
in_set-text names (int n) h = absurd (cc (any-false names, h))
in_set-text names (float x) h = absurd (cc (any-false names, h))
in_set-text names (arr xs) h = cc
in_set-text names (obj fs) h = cc

check_head-Acceptable :
    (H : Host) (head_sha : String) (current : List ℕ)
    → check_head H head_sha current ≡ ok tt
    → Acceptable H (codes head_sha) current
unfolding check_head
check_head-Acceptable H head_sha current h = elim (Bool-cases (text_eq (codes head_sha) current)) [
  | inl same ↦ Acceptable.current (text_eq-eq _ _ same)
  | inr differs ↦ (review_target_iff H (codes head_sha) current).0 (rw differs at h)
]

module _ (H : Host) (directory : String) where
  pub validate_summary-IsAccepted :
      (value : Json) (s : Summary)
      → validate_summary H directory value ≡ ok s
      → (value ≡ obj s.summary) × IsAccepted H directory s
  unfolding validate_summary
  validate_summary-IsAccepted value s h =
      let (summary, e₁, h₁) = >>=-returns (require_object value) _ h in
      let (id, e₂, h₂) = >>=-returns (require_nonempty_string (get "iteration_id" summary)) _ h₁ in
      let (_, e₃, h₃) = >>=-returns (require (str_eq id directory) _) _ h₂ in
      let (known, e₄, h₄) = >>=-returns (in_set iteration_statuses (get "status" summary)) _ h₃ in
      let (_, e₅, h₅) = >>=-returns (require known _) _ h₄ in
      let (_, _, h₆) = >>=-returns (require_git_sha (get "base_sha" summary)) _ h₅ in
      let (head_sha, e₇, h₇) = >>=-returns (require_git_sha (get "head_sha" summary)) _ h₆ in
      let (current, _, h₈) = >>=-returns H.rev_parse_head _ h₇ in
      let (_, e₉, h₉) = >>=-returns (check_head H head_sha current) _ h₈ in
      let (gates, e₁₀, h₁₀) = >>=-returns (read_gates (get "gates" summary)) _ h₉ in
      let status = text_of (get "status" summary) in
      let (_, e₁₁, h₁₁) = >>=-returns (validate_required_gates summary gates status) _ h₁₀ in
      let (_, _, h₁₂) = >>=-returns (check_review_target status summary) _ h₁₁ in
      let (is_text_, member) =
        in_set-text iteration_statuses (get "status" summary)
          (rw (require-eq-ok known _ e₅) at e₄) in
      let (valid, _) = read_gates-AllAccepted (get "gates" summary) gates e₁₀ in
      let same = (eq_iff id directory).0 (require-eq-ok _ _ e₃) in
      subst (λ (t : Summary). (value ≡ obj t.summary) × IsAccepted H directory t)
        (ok-injective _ _ h₁₂)
        (
          require_object-eq-ok value summary e₁,
          record {
            iteration_id = require_nonempty_string-eq-ok _ id e₂ ∙ ap str same;
            status = is_text_;
            known = member;
            head_sha = head_sha;
            head = require_git_sha-eq-ok _ head_sha e₇;
            acceptable = check_head-Acceptable H head_sha current e₉;
            gates = gates;
            read = e₁₀;
            valid_gates = valid;
            requirements = λ final.
                validate_required_gates-RequirementsMet summary gates status valid final e₁₁;
          },
        )
