-- ===== src/Iteration/Gate/Validated.antt =====
-- What `_validate_gate` accepts and refuses.
use nscscc_cpu.Base.{
  ℕ, ◌+◌, ◌<◌, ◌≡◌, refl, Bool, not, ◌&&◌, ◌||◌, ◌==◌, ltb, true, false, ◌↔◌, pos, String, arith,
  if◌then◌else◌, subst,
}
use nscscc_cpu.Result.{
  ok, NoEscape, NoEscape-bind, require-NoEscape, require-bind-NoEscape, >>=-returns, require,
  require-eq-ok,
}
use nscscc_cpu.Json.{Json, str, int, obj, Fields, get, is_text, is_hashable}
use nscscc_cpu.Iteration.Require.{
  require_object, require_nonnegative_int, in_set, in_set-hashable, require_object-eq-ok,
}
use nscscc_cpu.Iteration.Gate.{
  Counts, gate_statuses, read_counts, check_counts, validate_gate, gate_counts,
}

-- The rules that tie the counts of a gate to each other and to its status.
pub record IsConsistent (status : Json) (c : Counts) : Type 0 where
  pub executed : c.executed ≡ c.passed + c.failed
  pub planned : c.planned ≡ c.executed + c.skipped
  pub positive : 0 < c.planned
  pub pass :
      is_text "pass" status ≡ true → (c.passed ≡ c.planned) × (c.failed ≡ 0) × (c.skipped ≡ 0)
  pub fail : is_text "fail" status ≡ true → 0 < c.failed
  pub pending : is_text "pending" status ≡ true → c.executed ≡ 0
  pub skipped : is_text "skipped" status ≡ true → c.executed ≡ 0
  pub unavailable : is_text "unavailable" status ≡ true → 0 < c.failed + c.skipped

check_counts-IsConsistent :
    (status : Json) (c : Counts) → check_counts status c ≡ ok tt → IsConsistent status c
unfolding check_counts
check_counts-IsConsistent status c h = ground arith

module _ (b : Bool) where
  pass_allowed :
      (c : Counts)
      → 0 < c.planned
      → (b ≡ true → (c.passed ≡ c.planned) × (c.failed ≡ 0) × (c.skipped ≡ 0))
      → (b && not (ltb 0 c.planned && c.passed == c.planned && c.failed == 0 && c.skipped == 0))
        ≡ false
  pass_allowed c h k = ground (arith, k)

  fail_allowed : (n : ℕ) → (b ≡ true → 0 < n) → (b && n == 0) ≡ false
  fail_allowed n h = ground (arith, h)

  idle_allowed :
      (b' : Bool) (n : ℕ)
      → (b ≡ true → n ≡ 0)
      → (b' ≡ true → n ≡ 0)
      → ((b || b') && not (n == 0)) ≡ false
  idle_allowed b' n h k = ground (arith, h, k)

IsConsistent-check_counts :
    (status : Json) (c : Counts) → IsConsistent status c → check_counts status c ≡ ok tt
unfolding check_counts
IsConsistent-check_counts status c h =
    let sum : (c.executed == c.passed + c.failed) ≡ true = ground (arith, h.executed) in
    let total : (c.planned == c.executed + c.skipped) ≡ true = ground (arith, h.planned) in
    let some_planned : (c.planned == 0) ≡ false = ground (arith, h.positive) in
    let pass = pass_allowed (is_text "pass" status) c h.positive h.pass in
    let fail = fail_allowed (is_text "fail" status) c.failed h.fail in
    let idle =
      idle_allowed (is_text "pending" status) (is_text "skipped" status) c.executed h.pending
        h.skipped in
    let absent = fail_allowed (is_text "unavailable" status) (c.failed + c.skipped) h.unavailable in
    rw (sum, total, some_planned, pass, fail, idle, absent)

-- The counts `c` are the five fields of the gate.
pub record Holds (gate : Fields) (c : Counts) : Type 0 where
  pub planned : get "planned" gate ≡ int (pos c.planned)
  pub executed : get "executed" gate ≡ int (pos c.executed)
  pub passed : get "passed" gate ≡ int (pos c.passed)
  pub failed : get "failed" gate ≡ int (pos c.failed)
  pub skipped : get "skipped" gate ≡ int (pos c.skipped)

read_counts-Holds : (gate : Fields) (c : Counts) → read_counts gate ≡ ok c → Holds gate c
unfolding read_counts require_nonnegative_int
read_counts-Holds gate c h = ground arith

Holds-read_counts : (gate : Fields) (c : Counts) → Holds gate c → read_counts gate ≡ ok c
unfolding read_counts require_nonnegative_int
Holds-read_counts gate c h = ground arith

-- A gate is accepted exactly when its status is a text of the list and its five counts are
-- nonnegative integers that obey the rules; it is returned unchanged.
pub record Accepted (value : Json) (gate : Fields) : Type 0 where
  pub object : value ≡ obj gate
  pub counts : Counts
  pub known : in_set gate_statuses (get "status" gate) ≡ ok true
  pub holds : Holds gate counts
  pub consistent : IsConsistent (get "status" gate) counts

pub validate_gate-Accepted :
    (value : Json) (gate : Fields) → validate_gate value ≡ ok gate → Accepted value gate
unfolding validate_gate
validate_gate-Accepted value gate h =
    let (g, object, h₁) = >>=-returns (require_object value) _ h in
    let (known, e, h₂) = >>=-returns (in_set gate_statuses (get "status" g)) _ h₁ in
    let (_, k, h₃) = >>=-returns (require known _) _ h₂ in
    let (c, read, h₄) = >>=-returns (read_counts g) _ h₃ in
    let (_, checked, h₅) = >>=-returns (check_counts (get "status" g) c) _ h₄ in
    let same : g ≡ gate = cc h₅ in
    subst (λ (f : Fields). Accepted value f) same
      (record {
        object = require_object-eq-ok value g object;
        counts = c;
        known = rw (require-eq-ok known _ k) at e;
        holds = read_counts-Holds g c read;
        consistent = check_counts-IsConsistent (get "status" g) c checked;
      })

pub Accepted-validate_gate :
    (gate : Fields) → Accepted (obj gate) gate → validate_gate (obj gate) ≡ ok gate
unfolding validate_gate require_object
Accepted-validate_gate gate a = rw (
  a.known,
  Holds-read_counts gate a.counts a.holds,
  IsConsistent-check_counts (get "status" gate) a.counts a.consistent,
)

-- A gate is accepted exactly when its status is one of the known texts and its five counts are
-- nonnegative integers that obey the rules.
pub validate_gate_iff :
    (gate : Fields) → (validate_gate (obj gate) ≡ ok gate) ↔ Accepted (obj gate) gate
validate_gate_iff gate = (validate_gate-Accepted (obj gate) gate, Accepted-validate_gate gate)

-- The status that `rtl-smoke` gives to a gate with these counts.
abbrev pub published_status : Bool → Bool → String
published_status false passed = "skipped"
published_status true passed = if passed then "pass" else "fail"

-- Every gate that `gate_counts` publishes obeys the rules for its status.
pub gate_counts-IsConsistent :
    (executed passed : Bool)
    → check_counts (str (published_status executed passed)) (gate_counts executed passed) ≡ ok tt
unfolding check_counts gate_counts
gate_counts-IsConsistent false passed = refl
gate_counts-IsConsistent true true = refl
gate_counts-IsConsistent true false = refl

read_counts-NoEscape : (gate : Fields) → NoEscape (read_counts gate)
unfolding read_counts require_nonnegative_int
read_counts-NoEscape gate = ground arith

check_counts-NoEscape : (status : Json) (c : Counts) → NoEscape (check_counts status c)
unfolding check_counts
check_counts-NoEscape status c = search (require-bind-NoEscape, require-NoEscape) depth 12

-- A gate object whose status can be hashed is validated or refused by the tool's own error: no
-- other exception escapes, whatever the gate holds.
pub validate_gate-NoEscape :
    (gate : Fields) → is_hashable (get "status" gate) ≡ true → NoEscape (validate_gate (obj gate))
unfolding validate_gate require_object
validate_gate-NoEscape gate h =
    let (known, e) = in_set-hashable gate_statuses (get "status" gate) h in
    rw e (
      NoEscape-bind (require known _) _ (require-NoEscape known _) λ _ _.
        NoEscape-bind (read_counts gate) _ (read_counts-NoEscape gate) λ c _.
          NoEscape-bind (check_counts (get "status" gate) c) _
            (check_counts-NoEscape (get "status" gate) c) λ _ _. tt)
