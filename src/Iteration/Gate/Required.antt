-- ===== src/Iteration/Gate/Required.antt =====
-- What `_validate_required_gates` guarantees of the gates that `_validate_gate` has accepted.
use nscscc_cpu.Base.{
  ◌<◌, ◌≡◌, Bool, true, false, not, ◌&&◌, ◌==◌, ltb, all, elem, distinct, str_eq, eq_iff, inl, inr,
  Bool-cases, and-true_parts, ℤ, pos, String, List, [], ◌∷◌, some, arith, Option-cases, subst,
  is_empty,
}
use nscscc_cpu.Result.{
  ok, NoEscape, NoEscape-bind, require-NoEscape, require-bind-NoEscape, >>=-returns, require,
  require-eq-ok,
}
use nscscc_cpu.Json.{Json, arr, int, obj, Fields, get, py_eq, is_null}
use nscscc_cpu.Iteration.Require.{index}
use nscscc_cpu.Iteration.Gate.{
  Counts, Gates, gate_keys, lookup_gate, greater_than_zero, fully_passed, check_gate,
  check_required, check_all_required, check_names, is_final, required_names,
  validate_required_gates,
}
use nscscc_cpu.Iteration.Gate.Validated.{Holds, Accepted}

index-int : (k : String) (fs : Fields) (n : ℤ) → get k fs ≡ int n → index k fs ≡ ok (int n)
unfolding get index
index-int k fs n h = ground arith

abbrev all_passed : Counts → Bool
all_passed c =
    ltb 0 c.planned
    && (c.executed == c.planned && (c.passed == c.planned && (c.failed == 0 && c.skipped == 0)))

fully_passed-Holds :
    (gate : Fields) (c : Counts) → Holds gate c → fully_passed gate ≡ ok (all_passed c)
unfolding fully_passed greater_than_zero py_eq
fully_passed-Holds gate c h =
    rw
      (
        index-int "planned" gate (pos c.planned) h.planned,
        index-int "executed" gate (pos c.executed) h.executed,
        index-int "passed" gate (pos c.passed) h.passed,
        index-int "failed" gate (pos c.failed) h.failed,
        index-int "skipped" gate (pos c.skipped) h.skipped,
      )
      (ground arith)

-- Every gate of the dict has been accepted by `_validate_gate`.
abbrev pub AllAccepted : Gates → Type 0
AllAccepted [] = Unit
AllAccepted ((k, g) ∷ gates) = Accepted (obj g) g × AllAccepted gates

lookup_gate-Accepted :
    (name : String) (gates : Gates) (g : Fields)
    → AllAccepted gates
    → lookup_gate name gates ≡ some g
    → Accepted (obj g) g
unfolding lookup_gate
lookup_gate-Accepted name [] g a h = cc
lookup_gate-Accepted name ((k, f) ∷ gates) g (here, later) h = elim (Bool-cases (str_eq k name)) [
  | inl same ↦ subst (λ (x : Fields). Accepted (obj x) x) (cc (rw same at h)) here
  | inr differs ↦ lookup_gate-Accepted name gates g later (rw differs at h)
]

-- The gate of a required name: it ran every planned case, and each of them passed.
pub record IsPassed (gates : Gates) (name : String) : Type 0 where
  pub gate : Fields
  pub found : lookup_gate name gates ≡ some gate
  pub counts : Counts
  pub holds : Holds gate counts
  pub positive : 0 < counts.planned
  pub executed : counts.executed ≡ counts.planned
  pub passed : counts.passed ≡ counts.planned
  pub failed : counts.failed ≡ 0
  pub skipped : counts.skipped ≡ 0

abbrev pub AllPassed : Gates → List String → Type 0
AllPassed gates [] = Unit
AllPassed gates (name ∷ names) = IsPassed gates name × AllPassed gates names

check_gate-passed :
    (gate : Fields) (c : Counts) → Holds gate c → check_gate gate ≡ ok tt → all_passed c ≡ true
unfolding check_gate
check_gate-passed gate c holds h =
    let h' = rw (fully_passed-Holds gate c holds) at h in
    let (_, e, _) = >>=-returns (require (all_passed c) _) _ h' in require-eq-ok (all_passed c) _ e

IsPassed-of_gate :
    (gates : Gates) (name : String) (gate : Fields)
    → lookup_gate name gates ≡ some gate
    → Accepted (obj gate) gate
    → check_gate gate ≡ ok tt
    → IsPassed gates name
IsPassed-of_gate gates name gate found a h =
    let passed = check_gate-passed gate a.counts a.holds h in
    record {
      gate = gate;
      found = found;
      counts = a.counts;
      holds = a.holds;
      positive = ground arith;
      executed = ground arith;
      passed = ground arith;
      failed = ground arith;
      skipped = ground arith;
    }

check_required-IsPassed :
    (gates : Gates) (name : String)
    → AllAccepted gates
    → check_required gates name ≡ ok tt
    → IsPassed gates name
unfolding check_required
check_required-IsPassed gates name a h = elim (Option-cases (lookup_gate name gates)) [
  | inl missing ↦ cc (rw (missing, check_required) at h)
  | inr (gate, found) ↦
      IsPassed-of_gate gates name gate found (lookup_gate-Accepted name gates gate a found)
        (rw (found, check_required) at h)
]

check_all_required-AllPassed :
    (gates : Gates) (names : List String)
    → AllAccepted gates
    → check_all_required gates names ≡ ok tt
    → AllPassed gates names
unfolding check_all_required
check_all_required-AllPassed gates [] a h = tt
check_all_required-AllPassed gates (name ∷ names) a h =
    let (_, here, later) = >>=-returns (check_required gates name) _ h in
    (check_required-IsPassed gates name a here, check_all_required-AllPassed gates names a later)

-- When a ready or complete iteration gets past the check of its required gates, its summary lists
-- at least one name, no name twice, and each named gate exists, ran every planned case and passed
-- them all.
pub record RequirementsMet (summary : Fields) (gates : Gates) : Type 0 where
  pub names : List String
  pub listed : required_names (get "required_gates" summary) ≡ ok names
  pub some_name : is_empty names ≡ false
  pub no_duplicate : distinct names ≡ true
  pub passed : AllPassed gates names

check_names-parts :
    (gates : Gates) (status : String) (names : List String)
    → is_final status ≡ true
    → check_names gates status names ≡ ok tt
    → (distinct names ≡ true) × (is_empty names ≡ false) × (check_all_required gates names ≡ ok tt)
unfolding check_names
check_names-parts gates status names f h =
    let (_, d, h₁) = >>=-returns (require (distinct names) _) _ h in
    let (_, _, h₂) =
      >>=-returns (require (all (λ name. elem name (gate_keys gates)) names) _) _ h₁ in
    let (_, e, h₃) = >>=-returns (require (not (is_empty names)) _) _ (rw f at h₂) in
    let nonempty = require-eq-ok (not (is_empty names)) _ e in
    (require-eq-ok (distinct names) _ d, ground arith, h₃)

pub validate_required_gates-RequirementsMet :
    (summary : Fields) (gates : Gates) (status : String)
    → AllAccepted gates
    → is_final status ≡ true
    → validate_required_gates summary gates status ≡ ok tt
    → RequirementsMet summary gates
unfolding validate_required_gates
validate_required_gates-RequirementsMet summary gates status a f h =
    elim (Bool-cases (is_null (get "required_gates" summary))) [
      | inl absent ↦ cc (rw (absent, f) at h)
      | inr present ↦
          let (names, listed, h₁) =
            >>=-returns (required_names (get "required_gates" summary)) _ (rw present at h) in
          let (d, e, checked) = check_names-parts gates status names f h₁ in
          record {
            names = names;
            listed = listed;
            some_name = e;
            no_duplicate = d;
            passed = check_all_required-AllPassed gates names a checked;
          }
    ]

-- A gate that was accepted has all the fields that the loop reads, as numbers.
check_gate-NoEscape : (gate : Fields) → Accepted (obj gate) gate → NoEscape (check_gate gate)
unfolding check_gate
check_gate-NoEscape gate a =
    rw (fully_passed-Holds gate a.counts a.holds)
      (require-bind-NoEscape (all_passed a.counts) _ _ (require-NoEscape _ _))

lookup_gate-keys :
    (name : String) (gates : Gates)
    → elem name (gate_keys gates) ≡ true
    → (g : Fields) × (lookup_gate name gates ≡ some g)
unfolding lookup_gate
lookup_gate-keys name [] h = cc
lookup_gate-keys name ((k, g) ∷ gates) h = elim (Bool-cases (str_eq k name)) [
  | inl same ↦ (g, rw same)
  | inr differs ↦
      let (f, found) = lookup_gate-keys name gates (ground (arith, eq_iff name k, eq_iff k name)) in
      (f, rw differs found)
]

check_all_required-NoEscape :
    (gates : Gates) (names : List String)
    → AllAccepted gates
    → all (λ name. elem name (gate_keys gates)) names ≡ true
    → NoEscape (check_all_required gates names)
unfolding check_all_required check_required
check_all_required-NoEscape gates [] a h = tt
check_all_required-NoEscape gates (name ∷ names) a h =
    let (here, later) = and-true_parts (elem name (gate_keys gates)) _ h in
    let (g, found) = lookup_gate-keys name gates here in
    rw (found, check_required)
      (NoEscape-bind (check_gate g) _
        (check_gate-NoEscape g (lookup_gate-Accepted name gates g a found))
        λ _ _. check_all_required-NoEscape gates names a later)

required_names-NoEscape : (v : Json) → NoEscape (required_names v)
unfolding required_names
required_names-NoEscape (arr xs) = ground arith
required_names-NoEscape _ = tt

check_names-NoEscape :
    (gates : Gates) (status : String) (names : List String)
    → AllAccepted gates
    → NoEscape (check_names gates status names)
unfolding check_names
check_names-NoEscape gates status names a = require-bind-NoEscape (distinct names) _ _ (
    NoEscape-bind (require (all (λ name. elem name (gate_keys gates)) names) _) _
      (require-NoEscape _ _)
      λ _ e. elim (Bool-cases (is_final status)) [
        | inl final ↦ rw final (
            require-bind-NoEscape (not (is_empty names)) _ _
              (check_all_required-NoEscape gates names a (require-eq-ok _ _ e)))
        | inr open_ended ↦ rw open_ended tt
      ])

-- On gates that `_validate_gate` has accepted, the check of the required gates returns or raises
-- the tool's own error, whatever the summary holds: no KeyError and no TypeError escapes.
pub validate_required_gates-NoEscape :
    (summary : Fields) (gates : Gates) (status : String)
    → AllAccepted gates
    → NoEscape (validate_required_gates summary gates status)
unfolding validate_required_gates
validate_required_gates-NoEscape summary gates status a =
    elim (Bool-cases (is_null (get "required_gates" summary))) [
      | inl absent ↦ rw absent (require-NoEscape _ _)
      | inr present ↦ rw present (
          NoEscape-bind (required_names (get "required_gates" summary)) _
            (required_names-NoEscape _) λ names _. check_names-NoEscape gates status names a)
    ]
