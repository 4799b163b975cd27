-- ===== src/Replacement/Patterns.antt =====
-- The patterns of `validate_generated_lint_annotations` in tools/refactor.py, and the positions of lines.
-- A line out of range passes no test.
use nscscc_cpu.Base.{
  ℕ, zero, suc, ◌+◌, ◌-◌, Bool, true, false, not, ◌&&◌, ◌||◌, String, List, [], ◌∷◌, codes, strip,
  lstrip, rstrip, has_suffix, text_eq, any, all, length, take, drop, leb, is_hex, is_empty,
  get_elem?, ◌==◌, if◌then◌else◌, Option, none, some,
}
use nscscc_cpu.Verilog.Macros.{behind_keyword, longest, is_letter, is_name_character}
use nscscc_cpu.Transcript.Search.{
  Characters, behind, is_some, or_none, after_spaces, ends_word, word_ends,
}

-- The parsed lines: which rule an annotation names, and whether it turns it off.
pub data Annotation : Type 0 where
  file_off : Annotation
  file_on : Annotation
  signal_off : Annotation
  signal_on : Annotation

abbrev pub same_annotation : Annotation → Annotation → Bool
same_annotation file_off file_off = true
same_annotation file_on file_on = true
same_annotation signal_off signal_off = true
same_annotation signal_on signal_on = true
same_annotation _ _ = false

abbrev pub spelling : Annotation → List ℕ
spelling file_off = codes "/* verilator lint_off DECLFILENAME */"
spelling file_on = codes "/* verilator lint_on DECLFILENAME */"
spelling signal_off = codes "/* verilator lint_off UNUSEDSIGNAL */"
spelling signal_on = codes "/* verilator lint_on UNUSEDSIGNAL */"

abbrev pub spells : Annotation → List ℕ → Bool
spells a line = text_eq (strip line) (spelling a)

-- The pattern `exact`, of a line
unfoldable pub annotation : List ℕ → Option Annotation
annotation line =
    if spells file_off line
    then some file_off
    else if spells file_on line
    then some file_on
    else if spells signal_off line
    then some signal_off
    else if spells signal_on line
    then some signal_on
    else none

abbrev pub is_annotation : Annotation → Option Annotation → Bool
is_annotation a none = false
is_annotation a (some b) = same_annotation a b

-- `counts.get(key, 0)`
unfoldable pub count_of_annotation : Annotation → List (Option Annotation) → ℕ
count_of_annotation a [] = 0
count_of_annotation a (found ∷ more) =
    let rest = count_of_annotation a more in if is_annotation a found then 1 + rest else rest

-- `sum(match is not None for match in parsed)`
unfoldable pub annotations_in : List (Option Annotation) → ℕ
annotations_in [] = 0
annotations_in (found ∷ more) =
    let rest = annotations_in more in if is_some found then 1 + rest else rest

-- `pattern.findall(text)`: the starts of the text that match, where a match that is not over yet
-- takes up the number of characters.
unfoldable pub find_from : (List ℕ → Option (List ℕ)) → ℕ → List ℕ → List (List ℕ)
find_from match_at ahead [] = []
find_from match_at (suc ahead) (c ∷ rest) = find_from match_at ahead rest
find_from match_at zero (c ∷ rest) = elim (match_at (c ∷ rest)) [
  | none ↦ find_from match_at zero rest
  | some shown ↦ shown ∷ find_from match_at (length shown - 1) rest
]

abbrev pub find_all : (List ℕ → Option (List ℕ)) → List ℕ → List (List ℕ)
find_all match_at = find_from match_at zero

-- The start of the text that leaves the rest.
abbrev pub shown_before : List ℕ → List ℕ → List ℕ
shown_before text rest = take (length text - length rest) text

-- `DECLFILENAME` and `UNUSEDSIGNAL` in their numbers
abbrev pub has_inventory : List (Option Annotation) → Bool
has_inventory parsed =
    (count_of_annotation file_off parsed == 42)
    && (count_of_annotation file_on parsed == 42)
    && (count_of_annotation signal_off parsed == 7)
    && (count_of_annotation signal_on parsed == 7)

-- `(?:[0-9a-f]{40}:)?rtl/mycpu_top\.v` against a whole text
abbrev pub is_published_source : List ℕ → Bool
is_published_source source =
    text_eq source (codes "rtl/mycpu_top.v")
    || (length (take 40 source) == 40)
      && all is_hex (take 40 source)
      && text_eq (drop 40 source) (codes ":rtl/mycpu_top.v")

-- The line at a position passes a test.
abbrev pub line_at : List (List ℕ) → (List ℕ → Bool) → ℕ → Bool
line_at lines test index = elim (get_elem? lines index) [ none ↦ false | some line ↦ test line ]

-- The line that stands the number of lines earlier.
abbrev pub line_before : List (List ℕ) → (List ℕ → Bool) → ℕ → ℕ → Bool
line_before lines test back index = leb back index && line_at lines test (index - back)

abbrev pub marks : Annotation → List ℕ → Bool
marks a line = is_annotation a (annotation line)

abbrev pub is_line : String → List ℕ → Bool
is_line s line = text_eq (strip line) (codes s)

module _ (H : Characters) where
  -- `off|on|save` and the word's end, whatever their case
  abbrev pub behind_action : List ℕ → Option (List ℕ)
  behind_action text = elim (behind_keyword (codes "off") text) [
    | some rest ↦ some rest
    | none ↦ elim (behind_keyword (codes "on") text) [
      | some rest ↦ some rest
      | none ↦ behind_keyword (codes "save") text
    ]
  ]

  abbrev pub if_ends_word : List ℕ → Option (List ℕ)
  if_ends_word text = if ends_word H text then some text else none

  -- `[^*]*\*/`
  abbrev pub close_comment : List ℕ → Option (List ℕ)
  close_comment text =
      behind (codes "*/") (drop (length (longest (λ c. not (c == b'*')) text)) text)

  -- What is left behind the pattern `marker`.
  unfoldable pub behind_marker : List ℕ → Option (List ℕ)
  behind_marker text = or_none (behind (codes "/*") text) (λ a.
      or_none (behind_keyword (codes "verilator") (lstrip a)) (λ b. or_none (after_spaces b) (λ c.
        or_none (behind_keyword (codes "lint_") c)
          (λ d. or_none (behind_action d) (λ e. or_none (if_ends_word e) close_comment)))))

  abbrev pub marker_at : List ℕ → Option (List ℕ)
  marker_at text = or_none (behind_marker text) (λ rest. some (shown_before text rest))

  -- `(?:,|;)\s*$`
  abbrev pub ends_item : List ℕ → Bool
  ends_item text = has_suffix (codes ",") (rstrip text) || has_suffix (codes ";") (rstrip text)

  abbrev pub declares : List ℕ → Option (List ℕ) → Bool
  declares text none = false
  declares text (some rest) = ends_word H rest && ends_item rest

  -- The pattern `declaration`
  unfoldable pub is_declaration : List ℕ → Bool
  is_declaration line =
      any (λ k. declares line (behind (codes k) (lstrip line)))
        ("input" ∷ "output" ∷ "inout" ∷ "wire" ∷ "reg" ∷ [])

  -- `\b` behind one of the next characters of a name
  unfoldable pub has_boundary : ℕ → List ℕ → Bool
  has_boundary c [] = H.is_word c
  has_boundary c (d ∷ rest) =
      let later = has_boundary d rest in
      if H.is_word c
      then not (H.is_word d) || is_name_character d && later
      else H.is_word d || is_name_character d && later

  abbrev pub starts_name : List ℕ → Bool
  starts_name [] = false
  starts_name (c ∷ rest) = is_letter c && has_boundary c rest

  abbrev pub names_module : Option (List ℕ) → Bool
  names_module none = false
  names_module (some rest) = starts_name rest

  -- `^\s*module\s+[A-Za-z_][A-Za-z0-9_$]*\b`
  unfoldable pub is_module : List ℕ → Bool
  is_module line = names_module (or_none (behind (codes "module") (lstrip line)) after_spaces)

  -- `^\s*endmodule\b`
  unfoldable pub is_endmodule : List ℕ → Bool
  is_endmodule line = word_ends H (behind (codes "endmodule") (lstrip line))

  abbrev pub is_decimal : ℕ → Bool
  is_decimal c = is_some (H.digit c)

  -- `(?:_\d+)?\b`
  abbrev pub ends_numbered : List ℕ → Bool
  ends_numbered [] = true
  ends_numbered (c ∷ rest) =
      ends_word H (c ∷ rest)
      || (c == b'_')
        && not (is_empty (longest is_decimal rest))
        && ends_word H (drop (length (longest is_decimal rest)) rest)

  abbrev pub ends_black_box : Option (List ℕ) → Bool
  ends_black_box none = false
  ends_black_box (some rest) = ends_numbered rest

  -- The DiffTest black boxes
  unfoldable pub is_black_box : List ℕ → Bool
  is_black_box line =
      let name = or_none (behind (codes "module") (lstrip line)) after_spaces in
      ends_black_box (or_none name (behind (codes "ChiplabMultiCommitDiffTestBlackBox")))
      || ends_black_box (or_none name (behind (codes "ChiplabDiffTestBlackBox")))
