-- ===== src/Contract/Exact/Held.antt =====
-- What a section that passes holds, and that no KeyError escapes from its tests.
use nscscc_cpu.Base.{
  Bool, true, false, ◌&&◌, ◌||◌, String, eq_iff, List, [], ◌∷◌, elem, same_set, ◌≡◌, refl, arith,
  and-true_parts, ap, ◌∙◌, subst, ℤ, eqb_ℤ, eqb_ℤ-eq,
}
use nscscc_cpu.Result.{
  ok, >>=-returns, require-eq-ok, ok-injective, NoEscape, NoEscape-bind, require-NoEscape,
}
use nscscc_cpu.Json.{
  Json, bool, int, float, str, arr, obj, Items, nil, cons, Fields, keys, py_eq, items_eq, both_nan,
  nan, infinity, dyadic,
}
use nscscc_cpu.Iteration.Require.{require_object, index, require_object-eq-ok}
use nscscc_cpu.Contract.Fields.{require_fields}
use nscscc_cpu.Contract.Mul.Steps.{known_key, fields_known, then-NoEscape}
use nscscc_cpu.Contract.Exact.{same_type, require_exact, Locked, require_each, require_section}

-- The values that the contract locks: texts, integers, truth values and lists of texts.
abbrev all_texts : Items → Bool
all_texts nil = true
all_texts (cons (str s) xs) = all_texts xs
all_texts (cons _ xs) = false

abbrev pub is_plain : Json → Bool
is_plain (bool b) = true
is_plain (int n) = true
is_plain (str s) = true
is_plain (arr xs) = all_texts xs
is_plain _ = false

bool_exact : (a b : Bool) → py_eq (bool a) (bool b) ≡ true → a ≡ b
unfolding py_eq
bool_exact true true h = refl
bool_exact false false h = refl
bool_exact true false h = cc
bool_exact false true h = cc

text_exact : (v : Json) (t : String) → py_eq v (str t) ≡ true → v ≡ str t
unfolding py_eq
text_exact (str s) t h = ap str ((eq_iff s t).0 h)
text_exact _ t h = cc

text_element : (v : Json) (t : String) → (both_nan v (str t) || py_eq v (str t)) ≡ true → v ≡ str t
unfolding py_eq
text_element (str s) t h = ap str ((eq_iff s t).0 h)
text_element (float nan) t h = cc
text_element (float (infinity b)) t h = cc
text_element (float (dyadic m k)) t h = cc
text_element _ t h = cc

items_exact : (xs ys : Items) → all_texts ys ≡ true → items_eq xs ys ≡ true → xs ≡ ys
unfolding py_eq
items_exact nil nil p h = refl
items_exact nil (cons y ys) p h = cc
items_exact (cons x xs) nil p h = cc
items_exact (cons x xs) (cons (str t) ys) p h =
    let (a, b) = and-true_parts (both_nan x (str t) || py_eq x (str t)) (items_eq xs ys) h in
    ap (λ v. cons v xs) (text_element x t a) ∙ ap (cons (str t)) (items_exact xs ys p b)
items_exact (cons x xs) (cons _ ys) p h = cc

never : (b : Bool) → (b && false) ≡ true → ⊥
never b h = ground arith

int_exact : (v : Json) (n : ℤ) → (py_eq v (int n) && same_type v (int n)) ≡ true → v ≡ int n
unfolding py_eq
int_exact (int m) n h = ap int (eqb_ℤ-eq m n (and-true_parts (eqb_ℤ m n) true h).0)
int_exact v n h = absurd (never (py_eq v (int n)) h)

typed_bool : (v : Json) (b : Bool) → (py_eq v (bool b) && same_type v (bool b)) ≡ true → v ≡ bool b
unfolding py_eq
typed_bool (bool a) b h =
    ap bool (bool_exact a b (and-true_parts (py_eq (bool a) (bool b)) true h).0)
typed_bool v b h = absurd (never (py_eq v (bool b)) h)

list_exact :
    (v : Json) (ys : Items)
    → all_texts ys ≡ true
    → (py_eq v (arr ys) && same_type v (arr ys)) ≡ true
    → v ≡ arr ys
unfolding py_eq
list_exact (arr xs) ys p h = ap arr (items_exact xs ys p (and-true_parts (items_eq xs ys) true h).0)
list_exact v ys p h = absurd (never (py_eq v (arr ys)) h)

-- A value that is equal to a plain one, and of its type, is that value.
exact-eq : (v e : Json) → is_plain e ≡ true → (py_eq v e && same_type v e) ≡ true → v ≡ e
exact-eq v (bool b) p h = typed_bool v b h
exact-eq v (int n) p h = int_exact v n h
exact-eq v (str t) p h = text_exact v t (and-true_parts (py_eq v (str t)) _ h).0
exact-eq v (arr ys) p h = list_exact v ys p h
exact-eq v e p h = cc

-- The fields hold the locked values.
abbrev pub HoldsEach : Fields → Locked → Type 0
HoldsEach d [] = Unit
HoldsEach d ((key, expected) ∷ rest) = (index key d ≡ ok expected) × HoldsEach d rest

abbrev pub plain_values : Locked → Bool
plain_values [] = true
plain_values ((key, expected) ∷ rest) = is_plain expected && plain_values rest

abbrev pub known_keys : List String → Locked → Bool
known_keys names [] = true
known_keys names ((key, expected) ∷ rest) = elem key names && known_keys names rest

pub require_exact-eq :
    (v e : Json) {u : Unit {0}} → is_plain e ≡ true → require_exact v e ≡ ok u → v ≡ e
unfolding require_exact
require_exact-eq v e p h = exact-eq v e p (require-eq-ok (py_eq v e && same_type v e) _ h)

pub require_exact-NoEscape : (v e : Json) → NoEscape (require_exact v e)
unfolding require_exact
require_exact-NoEscape v e = require-NoEscape (py_eq v e && same_type v e) _

pub require_each-HoldsEach :
    (d : Fields) (locked : Locked) {u : Unit {0}}
    → plain_values locked ≡ true
    → require_each d locked ≡ ok u
    → HoldsEach d locked
unfolding require_each
require_each-HoldsEach d [] p h = tt
require_each-HoldsEach d ((key, expected) ∷ rest) p h =
    let (a, b) = and-true_parts (is_plain expected) (plain_values rest) p in
    let (v, e1, h1) = >>=-returns (index key d) _ h in
    let (_, e2, h2) = >>=-returns (require_exact v expected) _ h1 in
    (e1 ∙ ap ok (require_exact-eq v expected a e2), require_each-HoldsEach d rest b h2)

pub require_each-NoEscape :
    (d : Fields) (names : List String) (locked : Locked)
    → same_set (keys d) names ≡ true
    → known_keys names locked ≡ true
    → NoEscape (require_each d locked)
unfolding require_each
require_each-NoEscape d names [] known k = tt
require_each-NoEscape d names ((key, expected) ∷ rest) known k =
    let (a, b) = and-true_parts (elem key names) (known_keys names rest) k in
    NoEscape-bind (index key d) _ (known_key key names d known a) (λ v _.
      then-NoEscape (require_exact v expected) (require_each d rest)
        (require_exact-NoEscape v expected) (require_each-NoEscape d names rest known b))

pub require_section-HoldsEach :
    (key : String) (names : List String) (locked : Locked) (d section : Fields)
    → plain_values locked ≡ true
    → require_section key names locked d ≡ ok section
    → (index key d ≡ ok (obj section))
      × (same_set (keys section) names ≡ true)
      × HoldsEach section locked
unfolding require_section
require_section-HoldsEach key names locked d section p h =
    let (v, e1, h1) = >>=-returns (index key d) _ h in
    let (o, e2, h2) = >>=-returns (require_object v) _ h1 in
    let (_, e3, h3) = >>=-returns (require_fields names o) _ h2 in
    let (_, e4, h4) = >>=-returns (require_each o locked) _ h3 in
    subst (λ s. (index key d ≡ ok (obj s)) × (same_set (keys s) names ≡ true) × HoldsEach s locked)
      (ok-injective o section h4)
      (
        e1 ∙ ap ok (require_object-eq-ok v o e2),
        fields_known names o e3,
        require_each-HoldsEach o locked p e4,
      )
