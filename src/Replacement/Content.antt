-- ===== src/Replacement/Content.antt =====
-- `validate_replacement_verilog` of tools/refactor.py: what a replacement's text may hold.
pub mod Allowed
pub mod Forbidden
use nscscc_cpu.Base.{
  ℕ, Bool, true, false, not, ◌&&◌, ◌||◌, String, List, [], ◌∷◌, ◌++◌, codes, lstrip, text_eq,
  text_elem, any, all, is_empty, drop, length, map, ◌==◌, if◌then◌else◌, Option, none, some,
}
use nscscc_cpu.Result.{Result, ok, err, refused, ◌>>=◌, ◌>>◌, require, refuse_if}
use nscscc_cpu.Verilog.Mask.{mask_verilog_comments_and_strings}
use nscscc_cpu.Verilog.Macros.{
  behind_keyword, longest, is_letter, is_name_character, name_at, backtick,
  referenced_verilog_macros,
}
use nscscc_cpu.Transcript.Search.{
  Characters, behind, is_some, or_none, search_text, search_at_boundary, ends_word, word_ends,
}
use nscscc_cpu.Replacement.Patterns.{find_all}
use nscscc_cpu.Replacement.Lint.{validate_generated_lint_annotations}

-- Each text with each ending.
abbrev pub with_endings : List String → List String → List (List ℕ)
with_endings [] endings = []
with_endings (s ∷ ss) endings = map (λ e. codes s ++ codes e) endings ++ with_endings ss endings

-- FORBIDDEN_REPLACEMENT_ORACLE_TASK_PATTERN, each name behind its `$`.
abbrev pub oracle_tasks : List (List ℕ)
oracle_tasks =
    with_endings
      ("display" ∷ "write" ∷ "monitor" ∷ "strobe" ∷ "fdisplay" ∷ "fwrite" ∷ "fmonitor" ∷ "fstrobe"
        ∷ [])
      ("" ∷ "b" ∷ "h" ∷ "o" ∷ [])
    ++ with_endings
        ("monitoron" ∷ "monitoroff" ∷ "printtimescale" ∷ "finish" ∷ "finish_and_return" ∷ "stop"
          ∷ "fatal" ∷ "error" ∷ "warning" ∷ "info" ∷ "exit" ∷ [])
        ("" ∷ [])

-- The external tasks, each name behind its `$`.
abbrev pub external_tasks : List (List ℕ)
external_tasks = map codes (
    "readmemh" ∷ "readmemb" ∷ "writememh" ∷ "writememb" ∷ "fopen" ∷ "fclose" ∷ "fread" ∷ "fwrite"
    ∷ "fscanf" ∷ "fgets" ∷ "fgetc" ∷ "ungetc" ∷ "fseek" ∷ "ftell" ∷ "rewind" ∷ "fflush" ∷ "ferror"
    ∷ "fdisplay" ∷ "fmonitor" ∷ "fstrobe" ∷ "scanf" ∷ "dumpfile" ∷ "dumpvars" ∷ "dumpon" ∷ "dumpoff"
    ∷ "dumpall" ∷ "dumpflush" ∷ "random" ∷ "urandom" ∷ "urandom_range" ∷ "system" ∷ "value$plusargs"
    ∷ "test$plusargs" ∷ [])

-- SIDE_EFFECT_FREE_REPLACEMENT_SYSTEM_FUNCTIONS
abbrev pub allowed_functions : List (List ℕ)
allowed_functions = map codes (
    "$bits" ∷ "$clog2" ∷ "$countbits" ∷ "$countones" ∷ "$dimensions" ∷ "$high" ∷ "$increment"
    ∷ "$isunknown" ∷ "$left" ∷ "$low" ∷ "$onehot" ∷ "$onehot0" ∷ "$right" ∷ "$signed" ∷ "$size"
    ∷ "$unsigned" ∷ "$unpacked_dimensions" ∷ [])

abbrev pub dollar : ℕ
dollar = b'$'

-- REPLACEMENT_SYSTEM_IDENTIFIER_PATTERN
unfoldable pub system_identifier_at : List ℕ → Option (List ℕ)
system_identifier_at [] = none
system_identifier_at (c ∷ rest) =
    let name = name_at is_letter is_name_character rest in
    if c == dollar then or_none name (λ shown. some (dollar ∷ shown)) else none

module _ (H : Characters) where
  -- `\$(?:NAME|...)\b`, whatever the case, for names of word characters and `$`
  unfoldable pub task_at : List (List ℕ) → List ℕ → Bool
  task_at names [] = false
  task_at names (c ∷ rest) =
      (c == dollar) && any (λ name. word_ends H (behind_keyword name rest)) names

  abbrev pub has_task : List (List ℕ) → List ℕ → Bool
  has_task names = search_text (task_at names)

  -- "`\s*(?:define|undef)\b|``"
  unfoldable pub local_macro_at : List ℕ → Bool
  local_macro_at [] = false
  local_macro_at (c ∷ rest) =
      (c == backtick)
      && (word_ends H (behind_keyword (codes "define") (lstrip rest))
          || word_ends H (behind_keyword (codes "undef") (lstrip rest))
          || is_some (behind (backtick ∷ []) rest))

  abbrev pub names_dpi : Option (List ℕ) → Bool
  names_dpi none = false
  names_dpi (some rest) =
      is_some (behind_keyword (codes "\"dpi\"") (lstrip rest))
      || is_some (behind_keyword (codes "\"dpi-c\"") (lstrip rest))

  -- `\b(?:import|export)\s*"DPI(?:-C)?"`, whatever the case
  abbrev pub has_dpi : List ℕ → Bool
  has_dpi =
      search_at_boundary H
        (λ text.
          names_dpi (behind_keyword (codes "import") text)
          || names_dpi (behind_keyword (codes "export") text))
        false

  abbrev pub include_keyword : List ℕ
  include_keyword = backtick ∷ codes "include"

  abbrev pub is_in_line : ℕ → Bool
  is_in_line c = not (c == 13 || c == 10)

  abbrev pub include_text : List ℕ → Option (List ℕ)
  include_text rest =
      if ends_word H rest then some (include_keyword ++ longest is_in_line rest) else none

  -- "`include\b([^\r\n]*)", the whole match
  unfoldable pub include_at : List ℕ → Option (List ℕ)
  include_at text = or_none (behind include_keyword text) include_text

  abbrev pub is_unquoted : ℕ → Bool
  is_unquoted c = not (c == b'"')

  -- `"([^"]+)"\s*(?://.*)?` behind its first mark: the group
  abbrev pub closes_literal : List ℕ → Option (List ℕ) → Option (List ℕ)
  closes_literal literal none = none
  closes_literal literal (some rest) =
      if is_empty literal
      then none
      else if is_empty (lstrip rest) || is_some (behind (codes "//") (lstrip rest))
      then some literal
      else none

  abbrev pub quoted : List ℕ → Option (List ℕ)
  quoted text =
      let literal = longest is_unquoted text in
      closes_literal literal (behind (codes "\"") (drop (length literal) text))

  -- `literal_pattern`, of the text behind the keyword
  unfoldable pub included_file : List ℕ → Option (List ℕ)
  included_file text = or_none (behind (codes "\"") (lstrip text)) quoted

  abbrev pub check_included : Option (List ℕ) → Result (Unit {0})
  check_included none = err (refused "unresolved replacement include")
  check_included (some file) =
      require (text_eq file (codes "mycpu.h")) "unapproved replacement include"

  unfoldable pub check_includes : List (List ℕ) → Result (Unit {0})
  check_includes [] = ok tt
  check_includes (shown ∷ more) = do
    check_included (included_file (drop (length include_keyword) shown))
    check_includes more

  -- `referenced_verilog_macros(base_text)`, where there is a base
  abbrev pub base_macros : Option (Option (List ℕ)) → Result (List (List ℕ))
  base_macros none = ok []
  base_macros (some none) = err (refused "locked base Verilog is not UTF-8")
  base_macros (some (some text)) = ok (referenced_verilog_macros text)

  -- The tests of the text with its comments and strings masked.
  unfoldable pub check_system_tasks : List ℕ → Result (Unit {0})
  check_system_tasks code = do
    refuse_if (has_task oracle_tasks code)
        "replacement Verilog uses a forbidden oracle-output or simulation-control system task"
    refuse_if (has_task external_tasks code)
        "replacement Verilog uses an unbound external system task"
    require (all (λ name. text_elem name allowed_functions) (find_all system_identifier_at code))
        "replacement Verilog uses unapproved system tasks or functions"

  -- A text, and the base's, where there is a base and it is UTF-8.
  unfoldable pub validate_text : List ℕ → List ℕ → Option (Option (List ℕ)) → Result (Unit {0})
  validate_text text source base = do
    refuse_if (any (λ c. c == 0) text) "replacement Verilog contains a NUL byte"
    validate_generated_lint_annotations H text source
    let code = mask_verilog_comments_and_strings true text
    refuse_if (search_text local_macro_at code)
        "replacement Verilog contains a local macro or token-paste dependency"
    known ← base_macros base
    require (all (λ name. text_elem name known) (referenced_verilog_macros text))
        "replacement Verilog adds unbound macro dependencies"
    check_system_tasks code
    refuse_if (has_dpi (mask_verilog_comments_and_strings false text))
        "replacement Verilog uses an unbound DPI dependency"
    check_includes (find_all include_at text)

  -- The text is none where the payload is not UTF-8.
  unfoldable pub validate_replacement_verilog :
      Option (List ℕ) → List ℕ → Option (Option (List ℕ)) → Result (Unit {0})
  validate_replacement_verilog none source base = err (refused "replacement Verilog is not UTF-8")
  validate_replacement_verilog (some text) source base = validate_text text source base
