-- ===== src/Tests/Transcript.antt =====
-- A transcript that passes, and one with a mismatch.
use nscscc_cpu.Base.{
  ℕ, ◌-◌, true, false, not, lines_after, ◌||◌, ◌&&◌, List, ◌∷◌, ◌++◌, none, some, codes, leb,
  if◌then◌else◌, ◌≡◌, refl, all, strip, splitlines,
}
use nscscc_cpu.Result.{ok}
use nscscc_cpu.Verilog.Macros.{is_letter, behind_keyword, longest}
use nscscc_cpu.Transcript.Search.{
  Characters, behind, search_text, first_match, count_at, read_digits, search_at_boundary,
}
use nscscc_cpu.Transcript.Simulation.{
  Simulation, markers_of, found_names, bad_patterns, simulation_of, parse_simulation_log,
}
use nscscc_cpu.Transcript.Warnings.{
  is_build_error, parse_build_errors, parse_verilator_warnings, warnings_of, tag_at, behind_level,
}
use nscscc_cpu.Transcript.Summary.{
  Provenance, Summary, compiler_warnings, is_compiler_warning, collect_warnings, summary_of,
  summarize,
}
use nscscc_cpu.Transcript.Summary.Listed.{
  is_listed, warned_lines, warns_at_all, collect_warnings_complete,
}
use nscscc_cpu.Transcript.Summary.Clean.{summarize-clean, summarize_bad_text}

abbrev ascii : Characters
ascii = record {
  is_word = λ c. is_letter c || leb b'0' c && leb c b'9';
  digit = λ c. if leb b'0' c && leb c b'9' then some (c - b'0') else none;
}

abbrev new_line : List ℕ → List ℕ → List ℕ
new_line line rest = line ++ 10 ∷ rest

abbrev passing_log : List ℕ
passing_log = new_line (codes "Using build/la32r-nemu-interpreter-so for difftest") (
    new_line (codes "Difftest enabled.") (
      new_line (codes "HIT GOOD TRAP") (
        new_line (codes "Reached test end PC.")
          (new_line (codes "total clock is 20") (codes "total instruction   is 7")))))

abbrev provenance : Provenance
provenance = record {
  generated_at = "2026-01-01";
  log = "run.log";
  log_sha256 = "00";
  evaluator_sha256 = "11";
}

abbrev passing_summary : Summary
passing_summary =
    summary_of ascii provenance none passing_log (simulation_of ascii none passing_log)

passing_summarized : summarize ascii provenance none passing_log ≡ ok passing_summary
unfolding summarize parse_simulation_log
passing_summarized = refl

passing_passed : passing_summary.passed ≡ true
unfolding simulation_of markers_of search_text behind longest first_match count_at read_digits
    found_names bad_patterns behind_keyword search_at_boundary parse_build_errors is_build_error
    collect_warnings parse_verilator_warnings warnings_of compiler_warnings is_compiler_warning
    lines_after tag_at behind_level
passing_passed = refl

passing_log_clean :
    (passing_summary.simulation.passed ≡ true)
    × (all (λ raw. not (is_build_error ascii (strip raw))) (splitlines passing_log) ≡ true)
    × (all (λ raw. not (warns_at_all ascii raw)) (splitlines passing_log) ≡ true)
passing_log_clean =
    summarize-clean ascii provenance none passing_log passing_summary passing_summarized
      passing_passed

-- A log with a mismatch in its midst, behind every marker of a pass.
abbrev mismatch_shown : List ℕ
mismatch_shown = codes "Different at PC"

abbrev mismatch_rest : List ℕ
mismatch_rest = codes " = 0x1c000000"

abbrev failing_log : List ℕ
failing_log = passing_log ++ (mismatch_shown ++ mismatch_rest)

abbrev failing_simulation : Simulation
failing_simulation = simulation_of ascii none failing_log

failing_parsed : parse_simulation_log ascii none failing_log ≡ ok failing_simulation
unfolding parse_simulation_log
failing_parsed = refl

abbrev failing_summary : Summary
failing_summary = summary_of ascii provenance none failing_log failing_simulation

failing_summarized : summarize ascii provenance none failing_log ≡ ok failing_summary
unfolding summarize parse_simulation_log
failing_summarized = refl

mismatch_summarized : failing_summary.passed ≡ false
mismatch_summarized =
    summarize_bad_text ascii provenance none 0 "difftest_mismatch" "different at pc" passing_log
      mismatch_shown mismatch_rest failing_summary refl refl failing_summarized

-- A warning of each of the two kinds.
abbrev warning_log : List ℕ
warning_log = new_line (codes "%Warning-WIDTH: a.v:1") (codes "a.c:2: Warning: unused")

warnings_kept :
    all
      (is_listed (warns_at_all ascii) (warned_lines (collect_warnings ascii warning_log)))
      (splitlines warning_log)
    ≡ true
warnings_kept = collect_warnings_complete ascii warning_log
