-- ===== src/Verilog/Macros.antt =====
-- `referenced_verilog_macros` of tools/refactor.py. A set of names is a list of them, in the order
-- in which the patterns find them. Both patterns start at a backtick and pass none, so that each
-- match is found by trying the pattern behind every backtick.
use nscscc_cpu.Base.{
  ℕ, ◌+◌, Bool, true, not, ◌&&◌, ◌||◌, List, [], ◌∷◌, ◌++◌, ◌==◌, leb, if◌then◌else◌, Option, none,
  some, String, codes, lstrip, is_space, lower, any, text_eq, filter_b,
}
use nscscc_cpu.Verilog.Mask.{mask_verilog_comments_and_strings}

abbrev pub backtick : ℕ
backtick = 96

-- `[A-Za-z_]` and `[A-Za-z0-9_$]`
abbrev pub is_letter : ℕ → Bool
is_letter c = leb b'a' c && leb c b'z' || leb b'A' c && leb c b'Z' || c == b'_'

abbrev pub is_name_character : ℕ → Bool
is_name_character c = is_letter c || leb b'0' c && leb c b'9' || c == b'$'

-- The case folding of `re.IGNORECASE`: four letters outside ASCII match ASCII letters.
abbrev pub fold : ℕ → ℕ
fold c =
    if leb b'A' c && leb c b'Z'
    then c + 32
    else if c == 0x130 || c == 0x131
    then b'i'
    else if c == 0x17f
    then b's'
    else if c == 0x212a
    then b'k'
    else c

abbrev pub is_letter_folded : ℕ → Bool
is_letter_folded c = is_letter (fold c)

abbrev pub is_name_character_folded : ℕ → Bool
is_name_character_folded c = is_name_character (fold c)

-- The longest start of the text whose characters pass the test.
unfoldable pub longest : (ℕ → Bool) → List ℕ → List ℕ
longest test [] = []
longest test (c ∷ rest) = let more = longest test rest in if test c then c ∷ more else []

-- `([A-Za-z_][A-Za-z0-9_$]*)`, with the tests of the two classes.
unfoldable pub name_at : (ℕ → Bool) → (ℕ → Bool) → List ℕ → Option (List ℕ)
name_at first other [] = none
name_at first other (c ∷ rest) = if first c then some (c ∷ longest other rest) else none

-- What is left behind a keyword that the text starts with.
unfoldable pub behind_keyword : List ℕ → List ℕ → Option (List ℕ)
behind_keyword [] text = some text
behind_keyword (k ∷ keyword) [] = none
behind_keyword (k ∷ keyword) (c ∷ rest) =
    let behind = behind_keyword keyword rest in if fold c == k then behind else none

-- `\s+` and the name.
abbrev pub name_after_space : List ℕ → Option (List ℕ)
name_after_space [] = none
name_after_space (c ∷ rest) =
    if is_space c then name_at is_letter_folded is_name_character_folded (lstrip rest) else none

abbrev pub or_else : Option (List ℕ) → Option (List ℕ) → Option (List ℕ)
or_else (some name) other = some name
or_else none other = other

abbrev pub name_after_keyword : String → List ℕ → Option (List ℕ)
name_after_keyword keyword text = elim (behind_keyword (codes keyword) text) [
  | none ↦ none
  | some rest ↦ name_after_space rest
]

-- The first pattern, behind its backtick.
unfoldable pub condition_at : List ℕ → Option (List ℕ)
condition_at text =
    or_else (name_after_keyword "ifdef" (lstrip text)) (
      or_else (name_after_keyword "ifndef" (lstrip text))
        (name_after_keyword "elsif" (lstrip text)))

-- The second pattern, behind its backtick.
unfoldable pub use_at : List ℕ → Option (List ℕ)
use_at text = name_at is_letter is_name_character (lstrip text)

-- The matches of a pattern, from left to right.
unfoldable pub found : (List ℕ → Option (List ℕ)) → List ℕ → List (List ℕ)
found pattern_at [] = []
found pattern_at (c ∷ rest) =
    let more = found pattern_at rest in
    if c == backtick
    then (elim (pattern_at rest) [ none ↦ more | some name ↦ name ∷ more ])
    else more

abbrev pub directives : List String
directives =
    "begin_keywords" ∷ "celldefine" ∷ "default_nettype" ∷ "define" ∷ "else" ∷ "elsif"
    ∷ "end_keywords" ∷ "endcelldefine" ∷ "endif" ∷ "ifdef" ∷ "ifndef" ∷ "include" ∷ "line"
    ∷ "nounconnected_drive" ∷ "pragma" ∷ "resetall" ∷ "timescale" ∷ "unconnected_drive" ∷ "undef"
    ∷ []

abbrev pub is_directive : List ℕ → Bool
is_directive name = any (λ d. text_eq (lower name) (codes d)) directives

-- The names in the masked text.
unfoldable pub macros_of_code : List ℕ → List (List ℕ)
macros_of_code text =
    found condition_at text ++ filter_b (λ name. not (is_directive name)) (found use_at text)

unfoldable pub referenced_verilog_macros : List ℕ → List (List ℕ)
referenced_verilog_macros text = macros_of_code (mask_verilog_comments_and_strings true text)
