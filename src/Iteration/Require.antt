-- ===== src/Iteration/Require.antt =====
-- The field checks that every validator of tools/refactor.py starts from.
use nscscc_cpu.Base.{
  ℕ, Bool, true, false, String, List, is_hex_text, is_nonblank, any, pos, ◌≡◌, refl, arith, none,
  some,
}
use nscscc_cpu.Result.{
  Result, ok, err, refused, type_error, key_error, ◌>>=◌, ◌>>◌, require, NoEscape,
}
use nscscc_cpu.Json.{Json, int, str, arr, obj, Fields, lookup, is_text, is_hashable}

-- `_require_object`
unfoldable pub require_object : Json → Result Fields
require_object (obj fs) = ok fs
require_object _ = err (refused "must be an object")

-- `_require_nonempty_string`
unfoldable pub require_nonempty_string : Json → Result String
require_nonempty_string (str s) = do require (is_nonblank s) "must be a non-empty string"; ok s
require_nonempty_string _ = err (refused "must be a non-empty string")

-- `_require_git_sha`
unfoldable pub require_git_sha : Json → Result String
unfolding require_nonempty_string
require_git_sha value = do
  s ← require_nonempty_string value
  require (is_hex_text 40 s) "must be a full lowercase 40-character Git SHA"
  ok s

-- `_require_nonnegative_int`: a `bool` is an `int` in Python, and is refused.
unfoldable pub require_nonnegative_int : Json → Result ℕ
require_nonnegative_int (int (pos n)) = ok n
require_nonnegative_int _ = err (refused "must be a nonnegative integer")

-- `value in {names}`: a list or a dict cannot be hashed.
unfoldable pub in_set : List String → Json → Result Bool
in_set names (arr xs) = err type_error
in_set names (obj fs) = err type_error
in_set names value = ok (any (λ name. is_text name value) names)

-- `d[key]`
unfoldable pub index : String → Fields → Result Json
unfolding lookup
index k fs = elim (lookup k fs) [ none ↦ err key_error | some v ↦ ok v ]

-- `a and b`, where either may raise.
abbrev pub both : Result Bool → Result Bool → Result Bool
both (ok true) m = m
both (ok false) m = ok false
both (err e) m = err e

pub require_object-eq-ok : (v : Json) (fs : Fields) → require_object v ≡ ok fs → v ≡ obj fs
unfolding require_object
require_object-eq-ok v fs h = ground arith

pub require_nonnegative_int-eq-ok :
    (v : Json) (n : ℕ) → require_nonnegative_int v ≡ ok n → v ≡ int (pos n)
unfolding require_nonnegative_int
require_nonnegative_int-eq-ok v n h = ground arith

pub require_object-NoEscape : (v : Json) → NoEscape (require_object v)
unfolding require_object
require_object-NoEscape v = ground arith

pub in_set-hashable :
    (names : List String) (v : Json) → is_hashable v ≡ true → (b : Bool) × (in_set names v ≡ ok b)
unfolding in_set
in_set-hashable names (arr xs) h = cc
in_set-hashable names (obj fs) h = cc
in_set-hashable names _ h = (_, refl)

pub require_nonempty_string-eq-ok :
    (v : Json) (s : String) → require_nonempty_string v ≡ ok s → v ≡ str s
unfolding require_nonempty_string
require_nonempty_string-eq-ok v s h = ground arith

pub require_git_sha-eq-ok : (v : Json) (t : String) → require_git_sha v ≡ ok t → v ≡ str t
unfolding require_git_sha require_nonempty_string
require_git_sha-eq-ok v t h = ground arith
