-- ===== src/Transcript/Warnings.antt =====
-- The warnings and errors of a build log: `parse_verilator_warnings`, `parse_build_errors`,
-- `verilator_build_integrity_passed` and `verilator_compile_check_passed` of tools/refactor.py.
use nscscc_cpu.Base.{
  ℕ, ℤ, pos, eqb_ℤ, Bool, true, false, not, ◌||◌, ◌&&◌, List, [], ◌∷◌, Option, none, some, ◌==◌,
  leb, codes, strip, contains, splitlines, replace_char, is_empty, filter_b, map, any,
  if◌then◌else◌, drop, length,
}
use nscscc_cpu.Verilog.Macros.{behind_keyword, longest, fold}
use nscscc_cpu.Transcript.Search.{
  Characters, behind, is_some, or_none, search_text, first_match, matches_folded,
}

pub data Scope : Type 0 where
  dut official_environment : Scope

pub record Warning : Type 0 where
  pub category : List ℕ
  pub scope : Scope
  pub line : List ℕ

-- `[A-Z0-9_]`, with and without regard to case
abbrev pub is_tag : ℕ → Bool
is_tag c = leb b'A' c && leb c b'Z' || leb b'0' c && leb c b'9' || c == b'_'

abbrev pub is_tag_folded : ℕ → Bool
is_tag_folded c = leb b'a' (fold c) && leb (fold c) b'z' || leb b'0' c && leb c b'9' || c == b'_'

abbrev ends_tag : List ℕ → List ℕ → Option (List ℕ)
ends_tag tag [] = none
ends_tag tag (d ∷ left) = if d == b':' then some tag else none

abbrev tag_behind : List ℕ → List ℕ → Option (List ℕ)
tag_behind [] rest = none
tag_behind (t ∷ tag) rest = ends_tag (t ∷ tag) (drop (length (t ∷ tag)) rest)

-- `(?:-([TAG]+))?:`, with the group, which is empty where it takes no part.
unfoldable pub tag_at : (ℕ → Bool) → List ℕ → Option (List ℕ)
tag_at test [] = none
tag_at test (c ∷ rest) =
    if c == b':' then some [] else if c == b'-' then tag_behind (longest test rest) rest else none

-- `%Warning(?:-([A-Z0-9_]+))?:`, behind which `\s*(.*)` matches whatever there is.
abbrev pub category_at : List ℕ → Option (List ℕ)
category_at text = or_none (behind (codes "%Warning") text) (tag_at is_tag)

-- `match.group(1) or "GENERIC"`
abbrev pub category_name : List ℕ → List ℕ
category_name [] = codes "GENERIC"
category_name (c ∷ tag) = c ∷ tag

-- `line.replace("\\", "/")`
abbrev pub with_slashes : List ℕ → List ℕ
with_slashes line = replace_char 92 (b'/' ∷ []) line

abbrev pub build_scope : List ℕ → Scope
build_scope line =
    if contains (codes "/IP/myCPU/") (with_slashes line) then dut else official_environment

unfoldable pub warnings_of : List (List ℕ) → List Warning
warnings_of [] = []
warnings_of (line ∷ rest) = elim (first_match category_at line) [
  | none ↦ warnings_of rest
  | some tag ↦
      record { category = category_name tag; scope = build_scope line; line = strip line }
      ∷ warnings_of rest
]

unfoldable pub parse_verilator_warnings : List ℕ → List Warning
parse_verilator_warnings text = warnings_of (splitlines text)

-- `^%NAME(?:-[A-Z0-9_]+)?:` under `re.IGNORECASE`
abbrev pub reports : List ℕ → List ℕ → Bool
reports name line = is_some (or_none (behind_keyword name line) (tag_at is_tag_folded))

-- `: \*\*\*`
abbrev pub stops : List ℕ → Bool
stops text = matches_folded (codes ": ***") text

abbrev names_error : Option (List ℕ) → Bool
names_error none = false
names_error (some rest) =
    matches_folded (codes "fatal error:") rest || matches_folded (codes "error:") rest

-- `(?:g\+\+|gcc|collect2): (?:fatal )?error:` under `re.IGNORECASE`
abbrev pub compiler_error_at : List ℕ → Bool
compiler_error_at text =
    any (λ tool. names_error (behind_keyword (codes tool) text))
      ("g++: " ∷ "gcc: " ∷ "collect2: " ∷ [])

-- What the checks of a build read of its `CommandResult`.
pub record Build : Type 0 where
  pub exit_code : ℤ
  pub timed_out : Bool

unfoldable pub verilator_build_integrity_passed : Option Build → Bool → List (List ℕ) → Bool → Bool
verilator_build_integrity_passed none compile_fresh errors artifacts_fresh = false
verilator_build_integrity_passed (some build) compile_fresh errors artifacts_fresh =
    eqb_ℤ build.exit_code (pos 0)
    && not build.timed_out
    && compile_fresh
    && is_empty errors
    && artifacts_fresh

unfoldable pub verilator_compile_check_passed :
    Option Build → Bool → List Warning → List (List ℕ) → Bool → Bool
verilator_compile_check_passed build compile_fresh warnings errors artifacts_fresh =
    verilator_build_integrity_passed build compile_fresh errors artifacts_fresh && is_empty warnings

module _ (H : Characters) where
  -- `\[\d+\]` behind its bracket, with what is left
  unfoldable pub behind_level : Bool → List ℕ → Option (List ℕ)
  behind_level some_digit [] = none
  behind_level some_digit (c ∷ rest) = elim (H.digit c) [
    | none ↦ if some_digit && c == b']' then some rest else none
    | some d ↦ behind_level true rest
  ]

  -- `^make(?:\[\d+\])?: \*\*\*` under `re.IGNORECASE`
  abbrev pub make_stops : List ℕ → Bool
  make_stops line = elim (behind_keyword (codes "make") line) [
    | none ↦ false
    | some [] ↦ false
    | some (c ∷ rest) ↦
        if c == b'['
        then elim (behind_level false rest) [ none ↦ false | some left ↦ stops left ]
        else stops (c ∷ rest)
  ]

  -- `any(re.search(pattern, line, re.IGNORECASE) for pattern in patterns)`
  unfoldable pub is_build_error : List ℕ → Bool
  is_build_error line =
      reports (codes "%error") line
      || reports (codes "%fatal") line
      || make_stops line
      || search_text compiler_error_at line
      || search_text (matches_folded (codes "no rule to make target")) line

  unfoldable pub parse_build_errors : List ℕ → List (List ℕ)
  parse_build_errors text =
      map strip (filter_b (λ line. is_build_error (strip line)) (splitlines text))
