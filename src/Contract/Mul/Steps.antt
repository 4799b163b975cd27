-- ===== src/Contract/Mul/Steps.antt =====
-- When no exception of the language escapes from a field check.
use nscscc_cpu.Base.{
  ℕ, Bool, true, false, String, str_eq, List, [], ◌∷◌, same_set, elem, all, ◌≡◌, refl, arith,
  and-true_parts, eq_iff, Bool-cases, inl, inr, some, not, contains, codes, has_prefix, any, ◌||◌,
  subst, sym,
}
use nscscc_cpu.Result.{
  Result, ok, ◌>>=◌, ◌>>◌, require, require-eq-ok, NoEscape, NoEscape-bind, require-NoEscape,
  require-bind-NoEscape,
}
use nscscc_cpu.Json.{Json, Fields, end, field, lookup, keys, is_text}
use nscscc_cpu.Iteration.Require.{require_object, index, require_object-NoEscape}
use nscscc_cpu.Contract.Fields.{
  require_fields, require_string, require_integer, require_relative_posix_path, is_invalid_segment,
  split_path,
}
use nscscc_cpu.Contract.Mul.{require_text}

pub later_key : (j k : String) (b : Bool) → str_eq j k ≡ false → (str_eq k j || b) ≡ true → b ≡ true
later_key j k b e h = ground (arith, eq_iff j k, eq_iff k j)

pub lookup_found :
    (k : String) (d : Fields) → elem k (keys d) ≡ true → (v : Json) × (lookup k d ≡ some v)
unfolding lookup
lookup_found k end h = cc
lookup_found k (field j v d) h = elim (Bool-cases (str_eq j k)) [
  | inl e ↦ (v, rw (e) refl)
  | inr e ↦ let (w, q) = lookup_found k d (later_key j k (elem k (keys d)) e h) in (w, rw (e) q)
]

-- A key that the dict has is found.
pub found_key : (k : String) (d : Fields) → elem k (keys d) ≡ true → NoEscape (index k d)
unfolding index
found_key k d h = let (v, q) = lookup_found k d h in rw (q, index) tt

-- What holds of each text of a list holds of one that is in it.
pub all-elem :
    (p : String → Bool) (x : String) (ys : List String)
    → all p ys ≡ true
    → elem x ys ≡ true
    → p x ≡ true
all-elem p x [] h m = cc
all-elem p x (y ∷ ys) h m =
    let (a, b) = and-true_parts (p y) (all p ys) h in
    elim (Bool-cases (str_eq x y)) [
      | inl e ↦ subst (λ z. p z ≡ true) (sym ((eq_iff x y).0 e)) a
      | inr e ↦ all-elem p x ys b (rw (e) at m)
    ]

-- A key among the fields that were required is found.
pub known_key :
    (k : String) (names : List String) (d : Fields)
    → same_set (keys d) names ≡ true
    → elem k names ≡ true
    → NoEscape (index k d)
known_key k names d h m =
    let (_, b) =
      and-true_parts (all (λ x. elem x names) (keys d)) (all (λ y. elem y (keys d)) names) h in
    found_key k d (all-elem (λ y. elem y (keys d)) k names b m)

pub require_integer-NoEscape : (minimum : ℕ) (v : Json) → NoEscape (require_integer minimum v)
unfolding require_integer
require_integer-NoEscape minimum v = ground arith

pub require_string-NoEscape : (v : Json) → NoEscape (require_string v)
unfolding require_string
require_string-NoEscape v = ground arith

pub require_text-NoEscape :
    (k : String) (d : Fields) (t : String) → NoEscape (index k d) → NoEscape (require_text k d t)
unfolding require_text
require_text-NoEscape k d t h =
    NoEscape-bind (index k d) _ h (λ v _. require-NoEscape (is_text t v) _)

pub fields_known :
    (names : List String) (d : Fields) {u : Unit {0}}
    → require_fields names d ≡ ok u
    → same_set (keys d) names ≡ true
unfolding require_fields
fields_known names d h = require-eq-ok (same_set (keys d) names) _ h

pub require_fields-NoEscape : (names : List String) (d : Fields) → NoEscape (require_fields names d)
unfolding require_fields
require_fields-NoEscape names d = require-NoEscape (same_set (keys d) names) _

-- A call that cannot escape, and a rest that does not use its value.
pub then-NoEscape {ℓ} :
    {B : Type ℓ} (call : Result (Unit {0})) (rest : Result B)
    → NoEscape call
    → NoEscape rest
    → NoEscape (call >> rest)
then-NoEscape call rest p q = NoEscape-bind call (λ _. rest) p (λ _ _. q)

-- An object of the contract, whose fields are tested before the rest reads them.
pub object-NoEscape :
    (key : String) (d : Fields) (names : List String) (rest : Fields → Result (Unit {0}))
    → NoEscape (index key d)
    → ((o : Fields) → same_set (keys o) names ≡ true → NoEscape (rest o))
    → NoEscape (do value ← index key d; o ← require_object value; require_fields names o; rest o)
object-NoEscape key d names rest found next = NoEscape-bind (index key d) _ found (λ value _.
    NoEscape-bind (require_object value) _ (require_object-NoEscape value) (λ o _.
      NoEscape-bind (require_fields names o) _ (require_fields-NoEscape names o)
        (λ _ e. next o (fields_known names o e))))

module _ (d : Fields) (names : List String) (known : same_set (keys d) names ≡ true) where
  -- A field that must hold a text.
  pub text-NoEscape : (k t : String) → elem k names ≡ true → NoEscape (require_text k d t)
  text-NoEscape k t h = require_text-NoEscape k d t (known_key k names d known h)

  pub text_then :
      (k t : String) (rest : Result (Unit {0}))
      → elem k names ≡ true
      → NoEscape rest
      → NoEscape (require_text k d t >> rest)
  text_then k t rest h next = then-NoEscape (require_text k d t) rest (text-NoEscape k t h) next

  -- A field that is read.
  pub field_then :
      (k : String) (rest : Json → Result (Unit {0}))
      → elem k names ≡ true
      → ((v : Json) → NoEscape (rest v))
      → NoEscape (index k d >>= rest)
  field_then k rest h next =
      NoEscape-bind (index k d) rest (known_key k names d known h) (λ v _. next v)

  -- A field that must hold a number.
  pub number_then :
      (k : String) (minimum : ℕ) (rest : ℕ → Result (Unit {0}))
      → elem k names ≡ true
      → ((n : ℕ) → NoEscape (rest n))
      → NoEscape (do value ← index k d; n ← require_integer minimum value; rest n)
  number_then k minimum rest h next =
      field_then k (λ value. require_integer minimum value >>= rest) h
        (λ value.
          NoEscape-bind (require_integer minimum value) rest
            (require_integer-NoEscape minimum value) (λ n _. next n))

pub test_then :
    (b : Bool) (s : String) (rest : Result (Unit {0}))
    → NoEscape rest
    → NoEscape (require b s >> rest)
test_then b s rest next = then-NoEscape (require b s) rest (require-NoEscape b s) next

pub require_path-NoEscape : (v : Json) → NoEscape (require_relative_posix_path v)
unfolding require_relative_posix_path
require_path-NoEscape v = NoEscape-bind (require_string v) _ (require_string-NoEscape v) (λ path _.
    require-bind-NoEscape
      (not (
        contains (codes "\\") (codes path)
        || has_prefix (codes "/") (codes path)
        || has_prefix (codes "~") (codes path)))
      _ _
      (require-bind-NoEscape (not (any is_invalid_segment (split_path (codes path)))) _ (ok path)
        tt))
