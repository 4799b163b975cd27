-- ===== src/Contract/Manifest.antt =====
-- `parse_manifest` of tools/mul_contract.py.
pub mod Parsed
use nscscc_cpu.Base.{
  ℕ, Bool, true, false, not, ◌&&◌, ◌||◌, String, List, [], ◌∷◌, ◌++◌, codes, strip, splitlines,
  has_prefix, is_empty, text_eq, any, all, is_hex, length, ◌==◌, if◌then◌else◌, Option, none, some,
}
use nscscc_cpu.Result.{Result, ok, err, refused, ◌>>=◌, ◌>>◌, require, refuse_if}

-- A dict from texts to texts, in insertion order.
abbrev pub Values : Type 0
Values = List (List ℕ × List ℕ)

-- `key in values`
abbrev pub knows : List ℕ → Values → Bool
knows key values = any (λ entry. text_eq entry.0 key) values

-- `values.get(key, "")`
unfoldable pub value_of : List ℕ → Values → List ℕ
value_of key [] = []
value_of key ((k, v) ∷ values) =
    let other = value_of key values in if text_eq k key then v else other

-- `values[key] = value`: the value of a key that is there is replaced where it stands.
unfoldable pub assign : List ℕ → List ℕ → Values → Values
assign key value [] = (key, value) ∷ []
assign key value ((k, v) ∷ values) =
    let rest = assign key value values in
    if text_eq k key then (k, value) ∷ values else (k, v) ∷ rest

-- `line.split("=", 1)`, where the line has a `=`.
unfoldable pub split_first : List ℕ → Option (List ℕ × List ℕ)
split_first [] = none
split_first (c ∷ rest) =
    let parts = split_first rest in
    if c == b'='
    then some ([], rest)
    else (elim parts [ none ↦ none | some (key, value) ↦ some (c ∷ key, value) ])

-- A line that is not blank and no comment.
unfoldable pub parse_entry : Values → List ℕ → Result Values
parse_entry values line = elim (split_first line) [
  | none ↦ err (refused "manifest line is not key=value")
  | some (key, value) ↦ do
    refuse_if (is_empty (strip key) || knows (strip key) values)
        "manifest line has an invalid/duplicate key"
    ok (assign (strip key) (strip value) values)
]

-- `not line or line.startswith("#")`
abbrev pub is_skipped : List ℕ → Bool
is_skipped line = is_empty line || has_prefix (codes "#") line

unfoldable pub parse_line : Values → List ℕ → Result Values
parse_line values raw = if is_skipped (strip raw) then ok values else parse_entry values (strip raw)

-- The loop over the lines.
unfoldable pub parse_lines : Values → List (List ℕ) → Result Values
parse_lines values [] = ok values
parse_lines values (raw ∷ lines) = do now ← parse_line values raw; parse_lines now lines

abbrev pub golden_commit_key : List ℕ
golden_commit_key = codes "team_golden_candidate"

-- `[0-9a-f]{40}` against a whole text
abbrev pub is_commit : List ℕ → Bool
is_commit text = (length text == 40) && all is_hex text

abbrev pub readable : Option (List ℕ) → Result (List ℕ)
readable none = err (refused "cannot read manifest")
readable (some content) = ok content

-- The file: whether it is a regular file, and its text if it can be read as UTF-8.
unfoldable pub parse_manifest : Bool → Option (List ℕ) → Result Values
parse_manifest is_regular text = do
  require is_regular "manifest must be a regular file"
  content ← readable text
  values ← parse_lines [] (splitlines content)
  require (is_commit (value_of golden_commit_key values))
      "the golden commit of the manifest must be a full 40-hex SHA"
  ok values

-- `parse_manifest` of tools/div_contract.py, which also locks the commit.
unfoldable pub parse_locked_manifest : Bool → Option (List ℕ) → Result Values
parse_locked_manifest is_regular text = do
  values ← parse_manifest is_regular text
  require
      (text_eq (value_of golden_commit_key values)
        (codes "a158aa8ab4d49cece1a0fe488d7ac7dc02bd8cf6"))
      "the golden commit of the manifest is not the locked golden commit"
  ok values
