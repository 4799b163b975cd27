-- ===== src/Tests/Replacement.antt =====
-- A replacement of one file, and texts that are accepted and refused.
use nscscc_cpu.Base.{
  ℕ, ◌-◌, true, false, ◌&&◌, ◌||◌, leb, String, List, [], ◌∷◌, ◌++◌, Option, none, some, codes,
  length, text_elem, text_eq, pos, if◌then◌else◌, ◌==◌, ◌≡◌, ◌≢◌, refl, zero, suc, lines_after,
  splitlines, words, map, ◌⊎◌,
}
use nscscc_cpu.Result.{ok}
use nscscc_cpu.Json.{Json, int, str, arr, obj, nil, cons, field, end, lookup, get}
use nscscc_cpu.Verilog.Mask.{mask_verilog_comments_and_strings, mask_from, move, last_character}
use nscscc_cpu.Verilog.Macros.{
  longest, is_name_character, name_at, behind_keyword, condition_at, use_at, found, macros_of_code,
  referenced_verilog_macros,
}
use nscscc_cpu.Transcript.Search.{Characters, behind, search_text, search_at_boundary}
use nscscc_cpu.Contract.Manifest.{assign, split_first, value_of}
use nscscc_cpu.Replacement.Git.{
  Command, Worktree, split_on, require_clean_source_head, split_tab, check_entry,
  git_regular_blob_entry,
}
use nscscc_cpu.Replacement.Golden.{
  lock_entry, lock_line, lock_lines, read_golden_files, checked_repo_git_path,
}
use nscscc_cpu.Replacement.Patterns.{
  annotation, count_of_annotation, annotations_in, find_from, find_all, has_inventory,
  is_published_source, marker_at, behind_marker, is_declaration, has_boundary, is_module,
  is_endmodule, is_black_box,
}
use nscscc_cpu.Replacement.Lint.{
  check_annotation, check_annotations, check_lines, check_markers,
  validate_generated_lint_annotations,
}
use nscscc_cpu.Replacement.Lint.Scoped.{AllScoped, validate_generated_lint_annotations-AllScoped}
use nscscc_cpu.Replacement.Content.{
  allowed_functions, system_identifier_at, task_at, local_macro_at, include_at, included_file,
  check_includes, check_system_tasks, validate_text, validate_replacement_verilog,
}
use nscscc_cpu.Replacement.Content.Forbidden.{task_refused}
use nscscc_cpu.Replacement.Content.Allowed.{validate_replacement_verilog-allowed}
use nscscc_cpu.Replacement.Plan.{
  Repository, ComponentReplacementPlan, checked_digest, raw_replacements, bind_payloads,
  load_replacement, load_replacements, load_spec, load_component_replacement_plan,
}
use nscscc_cpu.Replacement.Plan.Accepted.{IsLoaded, load_component_replacement_plan-IsLoaded}

abbrev ascii : Characters
ascii = record {
  is_word = λ c.
      leb b'a' c && leb c b'z' || leb b'A' c && leb c b'Z' || leb b'0' c && leb c b'9' || c == b'_';
  digit = λ c. if leb b'0' c && leb c b'9' then some (c - b'0') else none;
}

abbrev alu : List ℕ
alu = codes "`include \"mycpu.h\"\nmodule alu;\nassign y = $signed(x) + `ONE;\nendmodule\n"

abbrev old_alu : List ℕ
old_alu = codes "module alu;\nassign y = `ONE;\nendmodule\n"

alu_accepted :
    validate_replacement_verilog ascii (some alu) (codes "rtl/alu.v") (some (some old_alu)) ≡ ok tt
unfolding validate_replacement_verilog validate_text validate_generated_lint_annotations
    check_markers find_from behind_marker behind check_system_tasks mask_from last_character move
    search_text local_macro_at referenced_verilog_macros macros_of_code found condition_at use_at
    name_at longest behind_keyword task_at system_identifier_at search_at_boundary check_includes
    include_at included_file
alu_accepted = refl

abbrev before_signed : List ℕ
before_signed = codes "`include          \nmodule alu;\nassign y = "

alu_masked :
    mask_verilog_comments_and_strings true alu
    ≡ before_signed ++ b'$' ∷ b's' ∷ codes "igned(x) + `ONE;\nendmodule\n"
unfolding mask_from last_character move
alu_masked = refl

allowed_example :
    text_elem
      (b'$' ∷ b's' ∷ longest is_name_character (codes "igned(x) + `ONE;\nendmodule\n"))
      allowed_functions
    ≡ true
allowed_example =
    validate_replacement_verilog-allowed ascii alu (codes "rtl/alu.v") (some (some old_alu))
      before_signed b's' (codes "igned(x) + `ONE;\nendmodule\n") alu_accepted alu_masked refl refl

abbrev printing : List ℕ
printing = codes "initial $DisplayB(1);"

printing_masked :
    mask_verilog_comments_and_strings true printing
    ≡ codes "initial " ++ b'$' ∷ (codes "DisplayB" ++ codes "(1);")
unfolding mask_from last_character move
printing_masked = refl

task_example :
    validate_replacement_verilog ascii (some printing) (codes "rtl/alu.v") (some (some old_alu))
    ≢ ok tt
task_example =
    task_refused ascii printing (codes "rtl/alu.v") (some (some old_alu)) (codes "initial ")
      (codes "DisplayB") (codes "(1);") printing_masked refl refl

-- A core_top with the locked inventory: six modules with a signal each, thirty-five without, and the
-- black box of DiffTest.
abbrev lines_of : List String → List ℕ
lines_of [] = []
lines_of (s ∷ ss) = codes s ++ 10 ∷ lines_of ss

abbrev repeated : ℕ → List ℕ → List ℕ
repeated zero text = []
repeated (suc n) text = text ++ repeated n text

abbrev plain_module : List ℕ
plain_module = lines_of (
    "/* verilator lint_off DECLFILENAME */" ∷ "module m ();" ∷ "endmodule"
    ∷ "/* verilator lint_on DECLFILENAME */" ∷ [])

abbrev signal_module : List ℕ
signal_module = lines_of (
    "/* verilator lint_off DECLFILENAME */" ∷ "module m ();"
    ∷ "/* verilator lint_off UNUSEDSIGNAL */" ∷ "wire x;" ∷ "/* verilator lint_on UNUSEDSIGNAL */"
    ∷ "endmodule" ∷ "/* verilator lint_on DECLFILENAME */" ∷ [])

abbrev black_box : List ℕ
black_box = lines_of (
    "`ifndef DIFFTEST_EN" ∷ "/* verilator lint_off UNUSEDSIGNAL */" ∷ "`endif"
    ∷ "/* verilator lint_off DECLFILENAME */" ∷ "module ChiplabDiffTestBlackBox_1 ();" ∷ "endmodule"
    ∷ "/* verilator lint_on DECLFILENAME */" ∷ "`ifndef DIFFTEST_EN"
    ∷ "/* verilator lint_on UNUSEDSIGNAL */" ∷ "`endif" ∷ [])

abbrev core_top : List ℕ
core_top = repeated 6 signal_module ++ repeated 35 plain_module ++ black_box

core_top_accepted :
    validate_generated_lint_annotations ascii core_top (codes "rtl/mycpu_top.v") ≡ ok tt
unfolding validate_generated_lint_annotations check_markers check_lines check_annotations
    check_annotation find_from behind_marker behind behind_keyword longest annotation
    count_of_annotation annotations_in is_declaration has_boundary is_module is_endmodule
    is_black_box lines_after
core_top_accepted = refl

lint_example :
    (find_all (marker_at ascii) core_top ≡ [])
    ⊎ ((is_published_source (codes "rtl/mycpu_top.v") ≡ true)
        × (annotations_in (map annotation (splitlines core_top))
            ≡ length (find_all (marker_at ascii) core_top))
        × (has_inventory (map annotation (splitlines core_top)) ≡ true)
        × AllScoped ascii (splitlines core_top) 0 (splitlines core_top))
lint_example =
    validate_generated_lint_annotations-AllScoped ascii core_top (codes "rtl/mycpu_top.v")
      core_top_accepted

-- A repository whose head replaces the ALU.
abbrev source_head : List ℕ
source_head = codes "a158aa8ab4d49cece1a0fe488d7ac7dc02bd8cf6"

abbrev answers : String → Command
answers s = record { exit_code = pos 0; stdout = codes s }

abbrev worktree : Worktree
worktree = record {
  head = answers "a158aa8ab4d49cece1a0fe488d7ac7dc02bd8cf6\n";
  branch = answers "refactor/alu\n";
  status = answers "";
  staged = answers "";
  semantic = answers "";
  untracked = answers "";
  tree = answers "b2c4\n";
}

abbrev digest : String
digest = "e3b0c44298fc1c149afbf4c8996fb92427ae41e4649b934ca495991b7852b855"

abbrev spec : Json
spec = obj (
    field "schema_version" (int (pos 1)) (
      field "replacements"
        (arr (
          cons
            (obj (
              field "target" (str "rtl/alu.v") (
                field "source" (str "spinal/generated/alu.v") (
                  field "base_sha256" (str digest) (field "replacement_sha256" (str digest) end)))))
            nil))
        end))

abbrev blobs : List ℕ → Option (List ℕ)
blobs path =
    if text_eq path (codes "rtl/alu.v")
    then some old_alu
    else if text_eq path (codes "spinal/generated/alu.v")
    then some alu
    else if text_eq path (codes "spec.json")
    then some (codes "{}")
    else none

abbrev repository : Repository
repository = record {
  Byte = ℕ;
  characters = ascii;
  worktree = worktree;
  manifest = codes "team_golden_candidate = c0ffee\n";
  golden_files = codes "# locked\nrtl/alu.v\nrtl/regfile.v\n";
  blob = λ commit path. blobs path;
  listing = λ commit path. record {
    exit_code = pos 0;
    stdout = codes "100644 blob 5f64\t" ++ path ++ 0 ∷ [];
  };
  decode = λ bytes. some bytes;
  loads = λ text. some spec;
  sha256_bytes = λ bytes. digest;
}

abbrev loaded : ComponentReplacementPlan ℕ
loaded = record {
  spec_path = codes "spec.json";
  spec_sha256 = digest;
  source_state = record {
    head = source_head;
    tree = codes "b2c4";
    branch = codes "refactor/alu";
    status_entry_count = 0;
    porcelain_clean = true;
    eol_normalization_only = false;
  };
  base_candidate_commit = codes "c0ffee";
  replacements =
      record {
        target = codes "rtl/alu.v";
        source = codes "spinal/generated/alu.v";
        base_sha256 = digest;
        replacement_sha256 = digest;
        source_oid = codes "5f64";
        source_mode = codes "100644";
        payload = alu;
      }
      ∷ [];
}

plan_loaded : load_component_replacement_plan repository (str "spec.json") source_head ≡ ok loaded
unfolding load_component_replacement_plan load_spec load_replacements load_replacement bind_payloads
    checked_digest raw_replacements lookup get lock_lines lock_line lock_entry assign split_first
    value_of read_golden_files checked_repo_git_path lines_after require_clean_source_head split_on
    split_tab check_entry git_regular_blob_entry words validate_replacement_verilog validate_text
    validate_generated_lint_annotations check_markers find_from behind_marker behind
    check_system_tasks mask_from last_character move search_text local_macro_at
    referenced_verilog_macros macros_of_code found condition_at use_at name_at longest
    behind_keyword task_at system_identifier_at search_at_boundary check_includes include_at
    included_file
plan_loaded = refl

plan_example : IsLoaded repository (str "spec.json") source_head loaded
plan_example =
    load_component_replacement_plan-IsLoaded repository (str "spec.json") source_head loaded
      plan_loaded
