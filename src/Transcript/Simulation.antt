-- ===== src/Transcript/Simulation.antt =====
-- `parse_simulation_log` of tools/refactor.py.
pub mod Passed
use nscscc_cpu.Base.{
  ℕ, Bool, true, false, not, ◌||◌, ◌&&◌, String, str_eq, List, [], ◌∷◌, ◌++◌, Option, none, some,
  ltb, codes, contains, strip, splitlines, filter_b, map, take, is_empty, if◌then◌else◌,
}
use nscscc_cpu.Result.{Result, ok, err, refused, ◌>>=◌, ◌>>◌, require}
use nscscc_cpu.Transcript.Search.{
  Characters, behind, is_some, search_text, first_match, matches_folded, later_in_line, count_at,
  search_word,
}

-- `expected_termination`, once it has been tested, and `termination_mode`.
pub data Termination : Type 0 where
  good_trap end_by_syscall missing : Termination

pub record Markers : Type 0 where
  pub difftest_library_loaded : Bool
  pub difftest_enabled : Bool
  pub saw_good_trap : Bool
  pub saw_end_by_syscall : Bool
  pub reached_test_end : Bool
  pub nonzero_instructions : Bool
  pub nonzero_clocks : Bool

-- A line of the log, or the message about the termination.
pub data Diagnostic : Type 0 where
  log_line : List ℕ → Diagnostic
  marker_mismatch : Option String → Termination → Diagnostic

pub record Simulation : Type 0 where
  pub passed : Bool
  pub markers : Markers
  pub termination_expectation : Option String
  pub termination_mode : Termination
  pub termination_valid : Bool
  pub failures : List String
  pub instructions : ℕ
  pub clocks : ℕ
  pub first_mismatch : Option (List ℕ)
  pub failure_excerpt : List Diagnostic

abbrev pub or_zero : Option ℕ → ℕ
or_zero none = 0
or_zero (some n) = n

-- `expected_termination not in {None, "good_trap", "end_by_syscall"}`
abbrev pub is_expectation : Option String → Bool
is_expectation none = true
is_expectation (some name) = str_eq name "good_trap" || str_eq name "end_by_syscall"

abbrev pub mode_of : Markers → Termination
mode_of m =
    if m.saw_end_by_syscall then end_by_syscall else if m.saw_good_trap then good_trap else missing

-- Either marker will do where none is expected, else the expected one.
abbrev pub is_valid_termination : Option String → Markers → Bool
is_valid_termination none m = m.saw_end_by_syscall || m.saw_good_trap
is_valid_termination (some name) m =
    if str_eq name "good_trap" then m.saw_good_trap else m.saw_end_by_syscall

abbrev pub is_diagnostic : List ℕ → Bool
is_diagnostic line =
    contains (codes "different at pc") line
    || contains (codes "Error(Code:") line
    || contains (codes "Both Error") line
    || contains (codes "HIT BAD TRAP") line
    || contains (codes "ABORT") line

abbrev pub first_line : List (List ℕ) → Option (List ℕ)
first_line [] = none
first_line (line ∷ lines) = some line

abbrev pub mandatory : Bool → Markers → Bool
mandatory termination_valid m =
    m.difftest_library_loaded && m.difftest_enabled && termination_valid && m.reached_test_end
    && m.nonzero_instructions && m.nonzero_clocks

-- `lines` with the text in it
abbrev pub lines_with : (List ℕ → Bool) → List ℕ → List (List ℕ)
lines_with test text = map strip (filter_b test (splitlines text))

-- The bad patterns that are literals, in lower case, which `re.IGNORECASE` makes of them.
abbrev pub bad_texts : List (String × String)
bad_texts =
    ("difftest_mismatch", "different at pc")
    ∷ ("trace_error", "error(code:")
    ∷ ("time_limit", "time limit exceeded")
    ∷ ("dead_clock", "cpu status no change")
    ∷ ("unhandled", "reached unhandled situation")
    ∷ ("bad_trap", "hit bad trap")
    ∷ []

abbrev pub as_search : String × String → String × (List ℕ → Bool)
as_search (name, literal) = (name, search_text (matches_folded (codes literal)))

module _ (H : Characters) where
  -- `bad_patterns.items()`, each pattern as its search.
  unfoldable pub bad_patterns : List (String × (List ℕ → Bool))
  bad_patterns = map as_search bad_texts ++ ("abort", search_word H (codes "abort")) ∷ []

  -- `[name for name, pattern in ... if re.search(...)]`
  unfoldable pub found_names : List (String × (List ℕ → Bool)) → List ℕ → List String
  found_names [] text = []
  found_names ((name, is_found) ∷ rest) text =
      let others = found_names rest text in if is_found text then name ∷ others else others

  abbrev pub uses_difftest : List ℕ → Bool
  uses_difftest text = elim (behind (codes "Using ") text) [
    | none ↦ false
    | some rest ↦ later_in_line (codes "la32r-nemu-interpreter-so for difftest") rest
  ]

  abbrev pub count_of : String → List ℕ → ℕ
  count_of title text = or_zero (first_match (count_at H (codes title)) text)

  unfoldable pub markers_of : List ℕ → Markers
  markers_of text = record {
    difftest_library_loaded = search_text uses_difftest text;
    difftest_enabled = contains (codes "Difftest enabled.") text;
    saw_good_trap = contains (codes "HIT GOOD TRAP") text;
    saw_end_by_syscall = contains (codes "END by Syscall") text;
    reached_test_end = contains (codes "Reached test end PC.") text;
    nonzero_instructions = ltb 0 (count_of "total instruction" text);
    nonzero_clocks = ltb 0 (count_of "total clock" text);
  }

  -- The result for an expectation that has been tested.
  unfoldable pub simulation_of : Option String → List ℕ → Simulation
  simulation_of expected text =
      let m = markers_of text in
      let valid = is_valid_termination expected m in
      let failures : List String =
        found_names bad_patterns text ++ (if valid then [] else "termination_marker" ∷ []) in
      record {
        passed = mandatory valid m && is_empty failures;
        markers = m;
        termination_expectation = expected;
        termination_mode = mode_of m;
        termination_valid = valid;
        failures = failures;
        instructions = count_of "total instruction" text;
        clocks = count_of "total clock" text;
        first_mismatch = first_line (lines_with (contains (codes "different at pc")) text);
        failure_excerpt = take 20 (
            map log_line (lines_with is_diagnostic text)
            ++ (if valid then [] else marker_mismatch expected (mode_of m) ∷ []));
      }

  unfoldable pub parse_simulation_log : Option String → List ℕ → Result Simulation
  parse_simulation_log expected text = do
    require (is_expectation expected) "unsupported simulation termination expectation"
    ok (simulation_of expected text)
