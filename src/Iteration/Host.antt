-- ===== src/Iteration/Host.antt =====
-- What `validate-iteration` takes from outside tools/: Git, the file system, SHA-256, the JSON
-- parser and `datetime`. No law of it is assumed except where a theorem names one.
use nscscc_cpu.Base.{ℕ, Bool, List, Option}
use nscscc_cpu.Result.{Result}
use nscscc_cpu.Json.{Json}

pub record Host : Type 1 where
  -- the output of a Git command, or `RefactorError` where it fails
  pub rev_parse_head : Result (List ℕ)
  pub rev_list_parents : List ℕ → Result (List ℕ)
  pub diff_name_only : List ℕ → List ℕ → Result (List ℕ)
  -- paths with every link resolved
  pub Resolved : Type 0
  pub same : Resolved → Resolved → Bool
  -- `Path(text).is_absolute()`
  pub is_absolute : List ℕ → Bool
  -- `Path(text).resolve(strict=True)`, below the iteration or below the repository if relative
  pub resolve_absolute : List ℕ → Option Resolved
  pub resolve_in_iteration : List ℕ → Option Resolved
  pub resolve_in_repository : List ℕ → Option Resolved
  pub within_iteration : Resolved → Bool
  pub within_repository : Resolved → Bool
  pub is_file : Resolved → Bool
  pub file_size : Resolved → ℕ
  -- the hexadecimal digest of a file
  pub sha256_file : Resolved → List ℕ
  -- the same of a file's bytes, and `read_text` as UTF-8, `none` where it raises
  pub sha256_bytes : List ℕ → List ℕ
  pub read_text : List ℕ → Option (List ℕ)
  -- `json.loads` on one text
  pub json_loads : List ℕ → Option Json
  -- `datetime.fromisoformat`, whether it has an offset, and `<` on those that have
  pub Moment : Type 0
  pub fromisoformat : List ℕ → Option Moment
  pub has_offset : Moment → Bool
  pub before : Moment → Moment → Bool
