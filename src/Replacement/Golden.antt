-- ===== src/Replacement/Golden.antt =====
-- `parse_lock`, `read_golden_files` and `checked_repo_git_path` of tools/refactor.py.
use nscscc_cpu.Base.{
  ℕ, Bool, true, not, ◌&&◌, ◌||◌, List, [], ◌∷◌, ◌++◌, codes, strip, lstrip, splitlines, has_prefix,
  is_empty, text_eq, text_elem, any, has_ink, contains, filter_b, map, ltb, if◌then◌else◌, Option,
  none, some,
}
use nscscc_cpu.Result.{Result, ok, err, refused, ◌>>=◌, ◌>>◌, require, refuse_if}
use nscscc_cpu.Json.{Json, str}
use nscscc_cpu.Contract.Manifest.{Values, assign, knows, is_skipped, split_first}
use nscscc_cpu.Replacement.Git.{split_on}

-- A line that is not blank and no comment.
unfoldable pub lock_entry : Values → Option (List ℕ × List ℕ) → Result Values
lock_entry values none = err (refused "expected key=value")
lock_entry values (some (key, value)) = do
  refuse_if (is_empty (strip key) || is_empty (strip value)) "empty key or value"
  refuse_if (knows (strip key) values) "duplicate key"
  ok (assign (strip key) (strip value) values)

unfoldable pub lock_line : Values → List ℕ → Result Values
lock_line values raw =
    if is_skipped (strip raw) then ok values else lock_entry values (split_first (strip raw))

unfoldable pub lock_lines : Values → List (List ℕ) → Result Values
lock_lines values [] = ok values
lock_lines values (raw ∷ lines) = do now ← lock_line values raw; lock_lines now lines

-- The text of the file, as UTF-8.
abbrev pub parse_lock : List ℕ → Result Values
parse_lock text = lock_lines [] (splitlines text)

-- `len(files) == len(set(files))`
abbrev pub texts_distinct : List (List ℕ) → Bool
texts_distinct [] = true
texts_distinct (t ∷ ts) = not (text_elem t ts) && texts_distinct ts

-- `line.strip() and not line.lstrip().startswith("#")`
abbrev pub is_listed : List ℕ → Bool
is_listed line = has_ink line && not (has_prefix (codes "#") (lstrip line))

-- `not item.startswith("rtl/") or ".." in Path(item).parts`
abbrev pub is_outside : List ℕ → Bool
is_outside item =
    not (has_prefix (codes "rtl/") item) || text_elem (codes "..") (split_on b'/' item)

-- FORBIDDEN_GOLDEN_FILES
abbrev pub forbidden_golden_files : List (List ℕ)
forbidden_golden_files =
    codes "rtl/btb.v.bak" ∷ codes "rtl/regfile_dual.v" ∷ codes "rtl/store_buffer.v" ∷ []

unfoldable pub read_golden_files : List ℕ → Result (List (List ℕ))
read_golden_files text = do
  let files = map strip (filter_b is_listed (splitlines text))
  require (texts_distinct files) "duplicate file"
  refuse_if (any is_outside files) "invalid paths"
  refuse_if (any (λ f. text_elem f forbidden_golden_files) files) "forbidden dead/backup RTL"
  ok files

-- `PurePosixPath(value).parts` of a relative path
abbrev pub path_parts : List ℕ → List (List ℕ)
path_parts value =
    filter_b (λ part. not (is_empty part) && not (text_eq part (codes "."))) (split_on b'/' value)

abbrev pub join_parts : List (List ℕ) → List ℕ
join_parts [] = []
join_parts (part ∷ []) = part
join_parts (part ∷ next ∷ parts) = part ++ b'/' ∷ join_parts (next ∷ parts)

-- `PurePosixPath(value).as_posix()` of a relative path
abbrev pub as_posix : List ℕ → List ℕ
as_posix value = if is_empty (path_parts value) then codes "." else join_parts (path_parts value)

abbrev last_part : List ℕ → List (List ℕ) → List ℕ
last_part found [] = found
last_part found (part ∷ parts) = last_part part parts

-- `PurePosixPath(value).name` of a relative path
abbrev pub path_name : List ℕ → List ℕ
path_name value = last_part [] (path_parts value)

-- A path is on code points from here on.
unfoldable pub checked_repo_git_path : Json → Result (List ℕ)
checked_repo_git_path (str s) = do
  refuse_if (is_empty (codes s)) "must be a non-empty repo-relative POSIX path"
  refuse_if (contains (codes "\\") (codes s) || any (λ c. ltb c 32) (codes s)) "invalid path"
  refuse_if
      (has_prefix (codes "/") (codes s)
        || has_prefix (codes ":") (codes s)
        || text_elem (codes "..") (path_parts (codes s)))
      "invalid path"
  require (text_eq (as_posix (codes s)) (codes s)) "invalid path"
  ok (codes s)
checked_repo_git_path _ = err (refused "must be a non-empty repo-relative POSIX path")
