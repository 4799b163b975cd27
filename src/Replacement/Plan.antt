-- ===== src/Replacement/Plan.antt =====
-- `load_component_replacement_plan` of tools/refactor.py. Git, UTF-8, SHA-256 and the JSON parser are
-- parameters. A revision of a path is a pair of texts.
pub mod Read
pub mod Bound
pub mod Accepted
use nscscc_cpu.Base.{
  ℕ, Bool, true, false, not, ◌&&◌, ◌||◌, String, List, [], ◌∷◌, ◌++◌, codes, text_eq, text_elem,
  has_suffix, is_empty, same_set, is_hex_text, str_eq, zero, suc, Option, none, some, pos,
  if◌then◌else◌,
}
use nscscc_cpu.Result.{Result, ok, err, refused, key_error, ◌>>=◌, ◌>>◌, require, refuse_if}
use nscscc_cpu.Json.{Json, int, str, arr, obj, Items, nil, cons, Fields, keys, get}
use nscscc_cpu.Transcript.Search.{Characters}
use nscscc_cpu.Contract.Manifest.{Values, knows, value_of, golden_commit_key}
use nscscc_cpu.Replacement.Git.{
  Command, Worktree, SourceState, Entry, require_clean_source_head, git_regular_blob_entry,
}
use nscscc_cpu.Replacement.Golden.{parse_lock, read_golden_files, path_name, checked_repo_git_path}
use nscscc_cpu.Replacement.Content.{validate_replacement_verilog}

-- The repository, and the two locked files that the tool reads.
pub record Repository : Type 1 where
  pub Byte : Type 0
  pub characters : Characters
  pub worktree : Worktree
  pub manifest : List ℕ
  pub golden_files : List ℕ
  -- `git cat-file blob`, none where it fails
  pub blob : List ℕ → List ℕ → Option (List Byte)
  -- `git ls-tree`
  pub listing : List ℕ → List ℕ → Command
  pub decode : List Byte → Option (List ℕ)
  -- `strict_json_loads`, none where it raises
  pub loads : List ℕ → Option Json
  pub sha256_bytes : List Byte → String

pub record ComponentReplacement (Byte : Type 0) : Type 0 where
  pub target : List ℕ
  pub source : List ℕ
  pub base_sha256 : String
  pub replacement_sha256 : String
  pub source_oid : List ℕ
  pub source_mode : List ℕ
  pub payload : List Byte

pub record ComponentReplacementPlan (Byte : Type 0) : Type 0 where
  pub spec_path : List ℕ
  pub spec_sha256 : String
  pub source_state : SourceState
  pub base_candidate_commit : List ℕ
  pub replacements : List (ComponentReplacement Byte)

abbrev pub required_keys : List String
required_keys = "target" ∷ "source" ∷ "base_sha256" ∷ "replacement_sha256" ∷ []

-- SHA256_HEX_PATTERN against a text
unfoldable pub checked_digest : String → Json → Result String
checked_digest message (str s) = do require (is_hex_text 64 s) message; ok s
checked_digest message _ = err (refused message)

-- `manifest["team_golden_candidate"]`
abbrev pub locked_commit : Values → Result (List ℕ)
locked_commit manifest =
    if knows golden_commit_key manifest
    then ok (value_of golden_commit_key manifest)
    else err key_error

-- `type(value) is int and value == 1`
abbrev pub is_schema_version : Json → Result (Unit {0})
is_schema_version (int (pos n)) =
    require (int_is_one n) "unsupported replacement spec schema_version"
  where
    int_is_one : ℕ → Bool
    int_is_one zero = false
    int_is_one (suc zero) = true
    int_is_one (suc (suc n)) = false
is_schema_version _ = err (refused "unsupported replacement spec schema_version")

-- A list that is not empty
abbrev pub replacement_items : Json → Result Items
replacement_items (arr (cons raw more)) = ok (cons raw more)
replacement_items _ = err (refused "replacement spec must contain at least one replacement")

-- The document's list of replacements
unfoldable pub raw_replacements : Json → Result Items
raw_replacements (obj document) = do
  require (same_set (keys document) ("schema_version" ∷ "replacements" ∷ []))
      "replacement spec must contain exactly schema_version and replacements"
  is_schema_version (get "schema_version" document)
  replacement_items (get "replacements" document)
raw_replacements _ =
    err (refused "replacement spec must contain exactly schema_version and replacements")

abbrev pub replacement_fields : Json → Result Fields
replacement_fields (obj raw) = do
  require (same_set (keys raw) required_keys) "replacement must contain exactly the required keys"
  ok raw
replacement_fields _ = err (refused "replacement must contain exactly the required keys")

abbrev pub or_refuse : {A : Type 0} → String → Option A → Result A
or_refuse message none = err (refused message)
or_refuse message (some a) = ok a

module _ (R : Repository) where
  abbrev pub git_blob : List ℕ → List ℕ → Result (List R.Byte)
  git_blob commit path = or_refuse "git cat-file blob failed" (R.blob commit path)

  abbrev pub targets : List (ComponentReplacement R.Byte) → List (List ℕ)
  targets [] = []
  targets (r ∷ rs) = r.target ∷ targets rs

  abbrev pub sources : List (ComponentReplacement R.Byte) → List (List ℕ)
  sources [] = []
  sources (r ∷ rs) = r.source ∷ sources rs

  module _ (head base_commit : List ℕ) (locked : List (List ℕ)) where
    -- The digests and the payloads of one replacement.
    unfoldable pub bind_payloads : Fields → List ℕ → List ℕ → Result (ComponentReplacement R.Byte)
    bind_payloads raw target source = do
      base_sha ← checked_digest "base_sha256 is invalid" (get "base_sha256" raw)
      replacement_sha ←
          checked_digest "replacement_sha256 is invalid" (get "replacement_sha256" raw)
      base_payload ← git_blob base_commit target
      require (str_eq base_sha (R.sha256_bytes base_payload)) "replacement base blob mismatch"
      source_entry ← git_regular_blob_entry (R.listing head source) source
      replacement_payload ← git_blob head source
      require (str_eq replacement_sha (R.sha256_bytes replacement_payload))
          "replacement source blob mismatch"
      validate_replacement_verilog R.characters (R.decode replacement_payload)
          (head ++ b':' ∷ source) (some (R.decode base_payload))
      ok (record {
        target = target;
        source = source;
        base_sha256 = base_sha;
        replacement_sha256 = replacement_sha;
        source_oid = source_entry.oid;
        source_mode = source_entry.mode;
        payload = replacement_payload;
      })

    -- One turn of the loop, behind the replacements that it has accepted.
    unfoldable pub load_replacement :
        List (ComponentReplacement R.Byte) → Json → Result (ComponentReplacement R.Byte)
    load_replacement before item = do
      raw ← replacement_fields item
      target ← checked_repo_git_path (get "target" raw)
      source ← checked_repo_git_path (get "source" raw)
      require (text_elem target locked && has_suffix (codes ".v") target)
          "replacement target is not a locked Verilog file"
      require (text_eq (path_name source) (path_name target))
          "replacement source basename must match target"
      refuse_if (text_elem target (targets before) || text_elem source (sources before))
          "replacement spec has a duplicate target or source"
      bind_payloads raw target source

    unfoldable pub load_replacements :
        List (ComponentReplacement R.Byte) → Items → Result (List (ComponentReplacement R.Byte))
    load_replacements before nil = ok before
    load_replacements before (cons item items) = do
      loaded ← load_replacement before item
      load_replacements (before ++ loaded ∷ []) items

  -- The spec at a commit: its list of replacements, and its digest.
  unfoldable pub load_spec : List ℕ → List ℕ → Result (Items × String)
  load_spec head spec_path = do
    entry ← git_regular_blob_entry (R.listing head spec_path) spec_path
    spec_payload ← git_blob head spec_path
    spec_text ← or_refuse "replacement spec is not valid UTF-8 JSON" (R.decode spec_payload)
    document ← or_refuse "invalid JSON" (R.loads spec_text)
    items ← raw_replacements document
    ok (items, R.sha256_bytes spec_payload)

  unfoldable pub load_component_replacement_plan :
      Json → List ℕ → Result (ComponentReplacementPlan R.Byte)
  load_component_replacement_plan spec_path_value source_head = do
    manifest ← parse_lock R.manifest
    source_state ← require_clean_source_head R.worktree source_head
    require (text_eq source_state.head source_head) "replacement source HEAD changed"
    spec_path ← checked_repo_git_path spec_path_value
    spec ← load_spec source_head spec_path
    locked ← read_golden_files R.golden_files
    base_commit ← locked_commit manifest
    replacements ← load_replacements source_head base_commit locked [] spec.0
    ok (record {
      spec_path = spec_path;
      spec_sha256 = spec.1;
      source_state = source_state;
      base_candidate_commit = base_commit;
      replacements = replacements;
    })
