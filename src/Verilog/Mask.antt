-- ===== src/Verilog/Mask.antt =====
-- `mask_verilog_comments_and_strings` of tools/refactor.py, on the code points of a text.
pub mod Blank
pub mod Again
use nscscc_cpu.Base.{
  ℕ, Bool, true, false, ◌&&◌, List, [], ◌∷◌, ◌==◌, if◌then◌else◌, Option, none, some,
}

pub data State : Type 0 where
  code line_comment block_comment string : State

abbrev pub newline : ℕ
newline = 10

abbrev pub blank : ℕ
blank = 32

abbrev pub quote : ℕ
quote = 34

abbrev pub star : ℕ
star = 42

abbrev pub slash : ℕ
slash = 47

abbrev pub backslash : ℕ
backslash = 92

-- One round of the loop: what it appends for one character or for two, and the next state.
pub data Move : Type 0 where
  one : ℕ → State → Move
  two : ℕ → ℕ → State → Move

-- `" " if mask_strings else character`
abbrev pub hide : Bool → ℕ → ℕ
hide mask_strings c = if mask_strings then blank else c

-- `"\n" if character == "\n" else " "`
abbrev pub keep_newline : ℕ → ℕ
keep_newline c = if c == newline then newline else blank

-- A round with a following character.
unfoldable pub move : Bool → State → ℕ → ℕ → Move
move mask_strings code c d =
    if c == slash && d == slash
    then two blank blank line_comment
    else if c == slash && d == star
    then two blank blank block_comment
    else if c == quote
    then one (hide mask_strings c) string
    else one c code
move mask_strings line_comment c d =
    one (keep_newline c) (if c == newline then code else line_comment)
move mask_strings block_comment c d =
    if c == star && d == slash then two blank blank code else one (keep_newline c) block_comment
move mask_strings string c d =
    if c == backslash
    then two (hide mask_strings c) (hide mask_strings d) string
    else one (hide mask_strings c) (if c == quote then code else string)

-- The round on the last character, where `following` is empty.
unfoldable pub last_character : Bool → State → ℕ → ℕ
last_character mask_strings code c = if c == quote then hide mask_strings c else c
last_character mask_strings line_comment c = keep_newline c
last_character mask_strings block_comment c = keep_newline c
last_character mask_strings string c = hide mask_strings c

-- The loop, on the rest of the text.
unfoldable pub mask_from : Bool → State → List ℕ → List ℕ
mask_from mask_strings state [] = []
mask_from mask_strings state (c ∷ []) = last_character mask_strings state c ∷ []
mask_from mask_strings state (c ∷ d ∷ rest) = elim (move mask_strings state c d) [
  | one x next ↦ x ∷ mask_from mask_strings next (d ∷ rest)
  | two x y next ↦ x ∷ y ∷ mask_from mask_strings next rest
]

abbrev pub mask_verilog_comments_and_strings : Bool → List ℕ → List ℕ
mask_verilog_comments_and_strings mask_strings text = mask_from mask_strings code text
