-- ===== src/Iteration/Gate/Escapes.antt =====
-- Which exceptions escape from `_validate_gate`.
use nscscc_cpu.Base.{false, ◌≡◌, ◌≢◌, refl, ◌↔◌, ◌⊎◌, inl, inr, Bool-cases, subst}
use nscscc_cpu.Result.{Result, err, type_error, key_error, NoEscape}
use nscscc_cpu.Json.{Json, arr, obj, Items, Fields, get, is_hashable}
use nscscc_cpu.Iteration.Require.{require_object, in_set}
use nscscc_cpu.Iteration.Gate.{validate_gate}
use nscscc_cpu.Iteration.Gate.Validated.{validate_gate-NoEscape}

-- A list or an object.
abbrev pub IsContainer : Json → Type 0
IsContainer v = ((xs : Items) × (v ≡ arr xs)) ⊎ ((fs : Fields) × (v ≡ obj fs))

is_hashable-IsContainer : (v : Json) → is_hashable v ≡ false → IsContainer v
is_hashable-IsContainer (arr xs) h = inl (xs, refl)
is_hashable-IsContainer (obj fs) h = inr (fs, refl)
is_hashable-IsContainer _ h = cc

-- A gate object whose status is a list or an object.
abbrev pub HasContainer : Json → Type 0
HasContainer value = (gate : Fields) × (value ≡ obj gate) × IsContainer (get "status" gate)

gate_escapes :
    (gate : Fields) → IsContainer (get "status" gate) → validate_gate (obj gate) ≡ err type_error
unfolding validate_gate require_object in_set
gate_escapes gate (inl (xs, e)) = rw (e) refl
gate_escapes gate (inr (fs, e)) = rw (e) refl

escaping_type {ℓ} : {A : Type ℓ} (r : Result A) → r ≡ err type_error → NoEscape r → ⊥
escaping_type r e h = subst NoEscape e h

escaping_key {ℓ} : {A : Type ℓ} (r : Result A) → r ≡ err key_error → NoEscape r → ⊥
escaping_key r e h = subst NoEscape e h

one_error {ℓ} : {A : Type ℓ} (r : Result A) → r ≡ err type_error → r ≡ err key_error → ⊥
one_error r h k = cc

escaped : (value : Json) → validate_gate value ≡ err type_error → HasContainer value
unfolding validate_gate require_object
escaped (obj gate) h = elim (Bool-cases (is_hashable (get "status" gate))) [
  | inl e ↦ absurd (escaping_type (validate_gate (obj gate)) h (validate_gate-NoEscape gate e))
  | inr e ↦ (gate, refl, is_hashable-IsContainer (get "status" gate) e)
]
escaped _ h = cc

no_key_error : (value : Json) → validate_gate value ≢ err key_error
unfolding validate_gate require_object
no_key_error (obj gate) h = elim (Bool-cases (is_hashable (get "status" gate))) [
  | inl e ↦ escaping_key (validate_gate (obj gate)) h (validate_gate-NoEscape gate e)
  | inr e ↦
      one_error (validate_gate (obj gate))
        (gate_escapes gate (is_hashable-IsContainer (get "status" gate) e)) h
]
no_key_error _ h = cc

container_escapes : (value : Json) → HasContainer value → validate_gate value ≡ err type_error
container_escapes value (gate, e, c) = rw (e) (gate_escapes gate c)

-- Whatever the value is, its validation never raises a KeyError, and it raises a TypeError exactly
-- when the value is an object whose status is a list or an object.
pub validate_gate_escapes_iff :
    (value : Json)
    → ((validate_gate value ≡ err type_error) ↔ HasContainer value)
      × (validate_gate value ≢ err key_error)
validate_gate_escapes_iff value = ((escaped value, container_escapes value), no_key_error value)
