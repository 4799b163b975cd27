-- ===== src/Contract/Exact.antt =====
-- `_require_exact` of tools/div_contract.py, and the objects whose fields it locks.
pub mod Held
use nscscc_cpu.Base.{ℕ, Bool, true, false, ◌&&◌, String, List, [], ◌∷◌}
use nscscc_cpu.Result.{Result, ok, err, ◌>>=◌, ◌>>◌, require}
use nscscc_cpu.Json.{Json, null, bool, int, float, str, arr, obj, Fields, py_eq}
use nscscc_cpu.Iteration.Require.{require_object, index}
use nscscc_cpu.Contract.Fields.{require_fields}

-- `type(value) is type(expected)`
abbrev pub same_type : Json → Json → Bool
same_type null null = true
same_type (bool a) (bool b) = true
same_type (int m) (int n) = true
same_type (float f) (float g) = true
same_type (str s) (str t) = true
same_type (arr xs) (arr ys) = true
same_type (obj fs) (obj gs) = true
same_type _ _ = false

unfoldable pub require_exact : Json → Json → Result (Unit {0})
require_exact value expected =
    require (py_eq value expected && same_type value expected) "must be the locked value"

-- A dict of locked values.
abbrev pub Locked : Type 0
Locked = List (String × Json)

-- `for name, expected in locked.items(): _require_exact(d[name], expected, ...)`, and each run of
-- such calls in a row.
unfoldable pub require_each : Fields → Locked → Result (Unit {0})
require_each d [] = ok tt
require_each d ((key, expected) ∷ rest) = do
  value ← index key d
  require_exact value expected
  require_each d rest

-- `_require_object`, `_require_fields` and the exact fields of one object of the contract.
unfoldable pub require_section : String → List String → Locked → Fields → Result Fields
require_section key names locked d = do
  value ← index key d
  section ← require_object value
  require_fields names section
  require_each section locked
  ok section
