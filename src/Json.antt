-- ===== src/Json.antt =====
-- What `json.loads` returns, and Python's operations on it: `==`, `in`, `dict.get`, `isinstance`.
use nscscc_cpu.Base.{
  ℕ, ◌^◌, suc, Bool, true, false, not, ◌&&◌, ◌||◌, ◌==◌, String, str_eq, Option, none, some, List,
  [], ◌∷◌, if◌then◌else◌, ℤ, pos, eqb_ℤ, ltb_ℤ, ◌*ℤ◌,
}

-- A double: not a number, an infinity (true for the negative one), or m / 2 ** k.
pub data Float : Type 0 where
  nan : Float
  infinity : Bool → Float
  dyadic : ℤ → ℕ → Float

-- A `dict` is its items in insertion order. Strings with lone surrogates are left out.
mutual
  pub data Json : Type 0 where
    null : Json
    bool : Bool → Json
    int : ℤ → Json
    float : Float → Json
    str : String → Json
    arr : Items → Json
    obj : Fields → Json

  pub data Items : Type 0 where
    nil : Items
    cons : Json → Items → Items

  pub data Fields : Type 0 where
    end : Fields
    field : String → Json → Fields → Fields

-- `d.get(key)`, with `none` where Python returns None.
unfoldable pub lookup : String → Fields → Option Json
lookup k end = none
lookup k (field j v fs) = if str_eq j k then some v else lookup k fs

abbrev pub keys : Fields → List String
keys end = []
keys (field k v fs) = k ∷ keys fs

abbrev pub items : Items → List Json
items nil = []
items (cons x xs) = x ∷ items xs

abbrev pub size : Fields → ℕ
size end = 0
size (field k v fs) = suc (size fs)

-- `d.get(key)`, with null for None.
abbrev pub or_null : Option Json → Json
or_null none = null
or_null (some v) = v

unfoldable pub get : String → Fields → Json
unfolding lookup
get k fs = or_null (lookup k fs)

abbrev to_int : Bool → ℤ
to_int true = pos 1
to_int false = pos 0

abbrev pub float_eq_int : Float → ℤ → Bool
float_eq_int (dyadic m k) n = eqb_ℤ m (n *ℤ pos (2 ^ k))
float_eq_int _ n = false

abbrev pub float_eq : Float → Float → Bool
float_eq (infinity p) (infinity q) = eqb_ℤ (to_int p) (to_int q)
float_eq (dyadic m k) (dyadic n l) = eqb_ℤ (m *ℤ pos (2 ^ l)) (n *ℤ pos (2 ^ k))
float_eq _ _ = false

-- `==` between numbers: `True == 1` and `1 == 1.0`.
abbrev pub scalar_eq : Json → Json → Bool
scalar_eq null null = true
scalar_eq (bool a) (bool b) = eqb_ℤ (to_int a) (to_int b)
scalar_eq (bool a) (int n) = eqb_ℤ (to_int a) n
scalar_eq (bool a) (float g) = float_eq_int g (to_int a)
scalar_eq (int m) (bool b) = eqb_ℤ m (to_int b)
scalar_eq (int m) (int n) = eqb_ℤ m n
scalar_eq (int m) (float g) = float_eq_int g m
scalar_eq (float f) (bool b) = float_eq_int f (to_int b)
scalar_eq (float f) (int n) = float_eq_int f n
scalar_eq (float f) (float g) = float_eq f g
scalar_eq (str s) (str t) = str_eq s t
scalar_eq _ _ = false

abbrev pub as_items : Json → Option Items
as_items (arr xs) = some xs
as_items _ = none

abbrev pub as_fields : Json → Option Fields
as_fields (obj fs) = some fs
as_fields _ = none

-- The parser makes one NaN object, and a container compares its elements by identity first.
abbrev pub both_nan : Json → Json → Bool
both_nan (float nan) (float nan) = true
both_nan _ _ = false

-- `==`. Lists are compared in order, dicts by their keys.
unfoldable mutual
  pub py_eq : Json → Json → Bool
  py_eq (arr xs) b = elim (as_items b) [ none ↦ false | some ys ↦ items_eq xs ys ]
  py_eq (obj fs) b = elim (as_fields b) [
    | none ↦ false
    | some gs ↦ (size fs == size gs) && fields_eq fs gs
  ]
  py_eq null b = scalar_eq null b
  py_eq (bool a) b = scalar_eq (bool a) b
  py_eq (int a) b = scalar_eq (int a) b
  py_eq (float a) b = scalar_eq (float a) b
  py_eq (str a) b = scalar_eq (str a) b

  pub items_eq : Items → Items → Bool
  items_eq nil nil = true
  items_eq nil (cons y ys) = false
  items_eq (cons x xs) nil = false
  items_eq (cons x xs) (cons y ys) = (both_nan x y || py_eq x y) && items_eq xs ys

  pub fields_eq : Fields → Fields → Bool
  fields_eq end gs = true
  fields_eq (field k v fs) gs = elim (lookup k gs) [
    | none ↦ false
    | some w ↦ (both_nan v w || py_eq v w) && fields_eq fs gs
  ]

-- Whether a value can be looked up in a set: lists and dicts are unhashable.
abbrev pub is_hashable : Json → Bool
is_hashable (arr xs) = false
is_hashable (obj fs) = false
is_hashable _ = true

-- `value == "text"`, with the text on the right.
abbrev pub is_text : String → Json → Bool
is_text s (str t) = str_eq t s
is_text s _ = false

abbrev pub is_null : Json → Bool
is_null null = true
is_null _ = false

-- `value is True`, `value is False`
abbrev pub is_true : Json → Bool
is_true (bool true) = true
is_true _ = false

abbrev pub is_false : Json → Bool
is_false (bool false) = true
is_false _ = false

-- `0 < x` and `0 <= x < inf` on doubles
abbrev pub float_gt_zero : Float → Bool
float_gt_zero nan = false
float_gt_zero (infinity negative) = not negative
float_gt_zero (dyadic m k) = ltb_ℤ (pos 0) m

abbrev pub is_finite_nonnegative : Float → Bool
is_finite_nonnegative (dyadic m k) = not (ltb_ℤ m (pos 0))
is_finite_nonnegative _ = false

-- `key in d`
unfoldable pub has_key : String → Fields → Bool
has_key k end = false
has_key k (field j v fs) = str_eq j k || has_key k fs
