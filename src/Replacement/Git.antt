-- ===== src/Replacement/Git.antt =====
-- What the replacements ask of Git: `git_text`, `require_clean_source_head` and
-- `git_regular_blob_entry` of tools/refactor.py.
use nscscc_cpu.Base.{
  ℕ, Bool, not, ◌&&◌, ◌||◌, List, [], ◌∷◌, codes, strip, has_prefix, is_empty, text_eq, all, length,
  filter_b, is_hex, words, ◌==◌, if◌then◌else◌, ℤ, pos, eqb_ℤ, Option, none, some,
}
use nscscc_cpu.Result.{Result, ok, err, refused, ◌>>=◌, ◌>>◌, require}

-- What a command leaves: `CommandResult`, less its error output and its times.
pub record Command : Type 0 where
  pub exit_code : ℤ
  pub stdout : List ℕ

-- `git_text`
abbrev pub git_text : Command → Result (List ℕ)
git_text c = do require (eqb_ℤ c.exit_code (pos 0)) "git failed"; ok (strip c.stdout)

abbrev pub first_text : ℕ → List (List ℕ) → List (List ℕ)
first_text c [] = (c ∷ []) ∷ []
first_text c (t ∷ ts) = (c ∷ t) ∷ ts

-- `text.split(separator)`, for one character
unfoldable pub split_on : ℕ → List ℕ → List (List ℕ)
split_on separator [] = [] ∷ []
split_on separator (c ∷ rest) =
    let ts = split_on separator rest in if c == separator then [] ∷ ts else first_text c ts

-- `[entry for entry in text.split("\0") if entry]`
abbrev pub entries : List ℕ → List (List ℕ)
entries text = filter_b (λ t. not (is_empty t)) (split_on 0 text)

-- The answers of Git to `require_clean_source_head`.
pub record Worktree : Type 0 where
  pub head : Command
  pub branch : Command
  pub status : Command
  pub staged : Command
  pub semantic : Command
  pub untracked : Command
  pub tree : Command

pub record SourceState : Type 0 where
  pub head : List ℕ
  pub tree : List ℕ
  pub branch : List ℕ
  pub status_entry_count : ℕ
  pub porcelain_clean : Bool
  pub eol_normalization_only : Bool

-- `[0-9a-f]{40}` against a whole text
abbrev pub is_full_sha : List ℕ → Bool
is_full_sha text = (length text == 40) && all is_hex text

-- `result.exit_code not in {0, 1}`, then `require_command`
abbrev pub require_answer : Command → Result (Unit {0})
require_answer c =
    require (eqb_ℤ c.exit_code (pos 0) || eqb_ℤ c.exit_code (pos 1))
      "inspect replacement source failed"

-- `semantic_clean`
abbrev pub is_clean : Worktree → List ℕ → Bool
is_clean w untracked =
    eqb_ℤ w.staged.exit_code (pos 0)
    && eqb_ℤ w.semantic.exit_code (pos 0)
    && is_empty untracked
    && all (has_prefix (codes " M ")) (entries w.status.stdout)

unfoldable pub require_clean_source_head : Worktree → List ℕ → Result SourceState
require_clean_source_head w expected_head = do
  require (is_full_sha expected_head) "--source-head must be a full lowercase 40-character Git SHA"
  actual_head ← git_text w.head
  require (text_eq actual_head expected_head) "replacement source HEAD changed"
  branch ← git_text w.branch
  require (has_prefix (codes "refactor/") branch)
      "replacement source must be on a refactor/* branch"
  require (eqb_ℤ w.status.exit_code (pos 0)) "inspect replacement source porcelain status failed"
  require_answer w.staged
  require_answer w.semantic
  untracked ← git_text w.untracked
  require (is_clean w untracked)
      "replacement source worktree has staged, non-CRLF, untracked, or unsupported status changes"
  tree ← git_text w.tree
  ok (record {
    head = actual_head;
    tree = tree;
    branch = branch;
    status_entry_count = length (entries w.status.stdout);
    porcelain_clean = is_empty (entries w.status.stdout);
    eol_normalization_only = not (is_empty (entries w.status.stdout));
  })

-- An entry of a tree, less its type, which is a blob.
pub record Entry : Type 0 where
  pub mode : List ℕ
  pub oid : List ℕ

-- `record.split("\t", 1)`, where the record has a tab.
unfoldable pub split_tab : List ℕ → Option (List ℕ × List ℕ)
split_tab [] = none
split_tab (c ∷ rest) =
    let parts = split_tab rest in
    if c == 9
    then some ([], rest)
    else (elim parts [ none ↦ none | some (metadata, path) ↦ some (c ∷ metadata, path) ])

-- mode, type and object id
unfoldable pub check_entry : List (List ℕ) → Bool → Result Entry
check_entry (mode ∷ object_type ∷ object_id ∷ []) same_path = do
  require same_path "replacement Git tree entry is malformed"
  require
      ((text_eq mode (codes "100644") || text_eq mode (codes "100755"))
        && text_eq object_type (codes "blob"))
      "replacement source must be a regular tracked blob"
  ok (record { mode = mode; oid = object_id })
check_entry _ same_path = err (refused "replacement Git tree entry is malformed")

abbrev pub read_entry : List ℕ → Option (List ℕ × List ℕ) → Result Entry
read_entry path none = err (refused "replacement source must be one tracked Git blob")
read_entry path (some (metadata, actual_path)) =
    check_entry (words metadata) (text_eq actual_path path)

abbrev pub one_record : List ℕ → List (List ℕ) → Result Entry
one_record path (line ∷ []) = read_entry path (split_tab line)
one_record path _ = err (refused "replacement source must be one tracked Git blob")

-- The answer of `git ls-tree -z`.
unfoldable pub git_regular_blob_entry : Command → List ℕ → Result Entry
git_regular_blob_entry listing path = do
  require (eqb_ℤ listing.exit_code (pos 0)) "inspect Git tree entry failed"
  one_record path (entries listing.stdout)
