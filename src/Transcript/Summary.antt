-- ===== src/Transcript/Summary.antt =====
-- The evidence that tools/sim_result.py makes of a simulation transcript.
pub mod Listed
pub mod Clean
use nscscc_cpu.Base.{
  ℕ, ◌+◌, Bool, true, false, not, ◌||◌, ◌&&◌, String, str_eq, List, [], ◌∷◌, ◌++◌, Option, none,
  some, codes, strip, contains, splitlines, map, length, is_empty, text_elem, same_truth,
  if◌then◌else◌,
}
use nscscc_cpu.Result.{Result, ok, ◌>>=◌}
use nscscc_cpu.Transcript.Search.{Characters, matches_folded, search_at_boundary}
use nscscc_cpu.Transcript.Simulation.{Simulation, parse_simulation_log}
use nscscc_cpu.Transcript.Warnings.{
  Scope, dut, official_environment, Warning, with_slashes, parse_verilator_warnings,
  parse_build_errors,
}

unfoldable pub warning_scope : List ℕ → Scope
warning_scope line =
    let normalized = with_slashes line in
    if contains (codes "/.work/echo/") normalized
      || contains (codes "/chiplab-source/") normalized
      || contains (codes "/IP/myCPU/") normalized
      || contains (codes "mycpu_top.v") normalized
    then dut
    else official_environment

-- `warning["scope"] = warning_scope(warning["line"])`
abbrev pub rescope : Warning → Warning
rescope w = record { category = w.category; scope = warning_scope w.line; line = w.line }

module _ (H : Characters) where
  -- `\bwarning:` under `re.IGNORECASE`
  unfoldable pub is_compiler_warning : List ℕ → Bool
  is_compiler_warning = search_at_boundary H (matches_folded (codes "warning:")) false

  -- The loop over the lines, with the lines seen so far.
  unfoldable pub compiler_warnings : List (List ℕ) → List (List ℕ) → List Warning
  compiler_warnings seen [] = []
  compiler_warnings seen (raw_line ∷ rest) =
      elim (not (is_compiler_warning (strip raw_line)) || text_elem (strip raw_line) seen) [
        | true ↦ compiler_warnings seen rest
        | false ↦
            record {
              category = codes "COMPILER";
              scope = warning_scope (strip raw_line);
              line = strip raw_line;
            }
            ∷ compiler_warnings (strip raw_line ∷ seen) rest
      ]

  unfoldable pub collect_warnings : List ℕ → List Warning
  collect_warnings text =
      let warnings = map rescope (parse_verilator_warnings text) in
      warnings ++ compiler_warnings (map (λ (w : Warning). w.line) warnings) (splitlines text)

-- `sum(item["scope"] == scope for item in warnings)`
abbrev pub is_dut : Scope → Bool
is_dut dut = true
is_dut official_environment = false

unfoldable pub count_scope : Bool → List Warning → ℕ
count_scope wanted [] = 0
count_scope wanted (w ∷ ws) =
    (if same_truth (is_dut w.scope) wanted then 1 else 0) + count_scope wanted ws

-- The clock, the resolved path of the log, and the digests of the log and of the tool.
pub record Provenance : Type 0 where
  pub generated_at : String
  pub log : String
  pub log_sha256 : String
  pub evaluator_sha256 : String

pub record Summary : Type 0 where
  pub schema_version : ℕ
  pub gate : String
  pub case_name : Option String
  pub passed : Bool
  pub provenance : Provenance
  pub simulation : Simulation
  pub build_errors : List (List ℕ)
  pub warnings : List Warning
  pub warning_count : ℕ
  pub dut_count : ℕ
  pub environment_count : ℕ

abbrev pub locked_smoke_case : String
locked_smoke_case = "func/func_lab19"

-- The locked case ends by a system call; no other case has an expectation.
abbrev pub expected_termination : Option String → Option String
expected_termination none = none
expected_termination (some name) = elim (str_eq name locked_smoke_case) [
  | true ↦ some "end_by_syscall"
  | false ↦ none
]

abbrev pub summary_of : Characters → Provenance → Option String → List ℕ → Simulation → Summary
summary_of H provenance case_name text simulation =
    let build_errors = parse_build_errors H text in
    let warnings = collect_warnings H text in
    record {
      schema_version = 1;
      gate = "chiplab-simulation-transcript";
      case_name = case_name;
      passed = simulation.passed && is_empty build_errors && is_empty warnings;
      provenance = provenance;
      simulation = simulation;
      build_errors = build_errors;
      warnings = warnings;
      warning_count = length warnings;
      dut_count = count_scope true warnings;
      environment_count = count_scope false warnings;
    }

unfoldable pub summarize : Characters → Provenance → Option String → List ℕ → Result Summary
summarize H provenance case_name text = do
  simulation ← parse_simulation_log H (expected_termination case_name) text
  ok (summary_of H provenance case_name text simulation)
