-- ===== src/Contract/Fields.antt =====
-- The field checks of tools/mul_contract.py, from `_require_fields` to
-- `_require_relative_posix_path`.
use nscscc_cpu.Base.{
  ℕ, Bool, false, ◌&&◌, ◌||◌, String, List, [], ◌∷◌, codes, same_set, leb, any, all, is_empty,
  has_prefix, contains, text_eq, if◌then◌else◌, ◌==◌, is_hex, pos, negsuc,
}
use nscscc_cpu.Result.{Result, ok, err, refused, ◌>>=◌, ◌>>◌, require, refuse_if}
use nscscc_cpu.Json.{Json, int, str, Fields, keys}

-- `_require_fields`: missing or unknown keys are refused.
unfoldable pub require_fields : List String → Fields → Result (Unit {0})
require_fields expected value = require (same_set (keys value) expected) "fields mismatch"

-- `_require_string`
unfoldable pub require_string : Json → Result String
require_string (str s) = do refuse_if (is_empty (codes s)) "must be a non-empty string"; ok s
require_string _ = err (refused "must be a non-empty string")

-- `_require_integer` with a minimum that is a natural number, as each of its calls has.
unfoldable pub require_integer : ℕ → Json → Result ℕ
require_integer minimum (int (pos n)) = do require (leb minimum n) "must be >= the minimum"; ok n
require_integer minimum (int (negsuc n)) = err (refused "must be >= the minimum")
require_integer minimum _ = err (refused "must be an integer")

abbrev pub with_first : ℕ → List (List ℕ) → List (List ℕ)
with_first c [] = (c ∷ []) ∷ []
with_first c (part ∷ parts) = (c ∷ part) ∷ parts

-- `path.split("/")`
unfoldable pub split_path : List ℕ → List (List ℕ)
split_path [] = [] ∷ []
split_path (c ∷ rest) =
    let parts = split_path rest in if c == b'/' then [] ∷ parts else with_first c parts

abbrev pub is_invalid_segment : List ℕ → Bool
is_invalid_segment part = is_empty part || text_eq part (codes ".") || text_eq part (codes "..")

-- `_require_relative_posix_path`
unfoldable pub require_relative_posix_path : Json → Result String
require_relative_posix_path value = do
  path ← require_string value
  refuse_if
      (contains (codes "\\") (codes path)
        || has_prefix (codes "/") (codes path)
        || has_prefix (codes "~") (codes path))
      "must be a relative POSIX path"
  refuse_if (any is_invalid_segment (split_path (codes path))) "contains an invalid path segment"
  ok path

-- `0x[0-9a-f]+` against a whole text
abbrev pub is_seed : List ℕ → Bool
is_seed (z ∷ x ∷ d ∷ ds) = (z == b'0') && (x == b'x') && is_hex d && all is_hex ds
is_seed _ = false
