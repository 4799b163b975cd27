-- ===== src/Tests/Contract.antt =====
-- The multiplier contract that the repository holds (reference/component-contracts/mul.json).
use nscscc_cpu.Base.{ℕ, List, [], ◌∷◌, codes, some, lines_after, true, ◌≡◌, refl, pos}
use nscscc_cpu.Result.{ok}
use nscscc_cpu.Result.{NoEscape}
use nscscc_cpu.Json.{null, int, str, obj, bool, Fields, end, field, lookup, py_eq}
use nscscc_cpu.Iteration.Require.{require_object, index}
use nscscc_cpu.Contract.Fields.{
  require_fields, require_string, require_integer, require_relative_posix_path, split_path,
}
use nscscc_cpu.Contract.Manifest.{
  Values, assign, value_of, split_first, parse_entry, parse_line, parse_lines, parse_manifest,
}
use nscscc_cpu.Contract.Manifest.Parsed.{IsGiven, parse_manifest-IsGiven}
use nscscc_cpu.Contract.Pairs.{collect_pairs, reject_duplicate_keys}
use nscscc_cpu.Contract.Mul.{
  require_text, check_identity, check_golden, check_port, check_each_port, check_ports, check_reset,
  check_timing, check_protocol, check_stimulus, check_diff, validate_contract,
}
use nscscc_cpu.Contract.Mul.Caught.{validate_contract-NoEscape}
use nscscc_cpu.Contract.Mul.Locked.{
  GoldenIsLocked, PortsAreLocked, ProtocolIsLocked, validate_contract-locked,
}

abbrev contract_golden : Fields
contract_golden = field "commit_key" (str "team_golden_candidate") (
    field "path" (str "rtl/mul.v") (
      field "sha256" (str "251d2bba3e659c294c9a004bbb2b542435fcfa0b0c1582cc1a7a3edca765a4c0")
        (field "size" (int (pos 6045)) (end))))

abbrev contract_ports_mul_clk : Fields
contract_ports_mul_clk = field "direction" (str "input") (field "width" (int (pos 1)) (end))

abbrev contract_ports_reset : Fields
contract_ports_reset = field "direction" (str "input") (field "width" (int (pos 1)) (end))

abbrev contract_ports_mul_signed : Fields
contract_ports_mul_signed = field "direction" (str "input") (field "width" (int (pos 1)) (end))

abbrev contract_ports_x : Fields
contract_ports_x = field "direction" (str "input") (field "width" (int (pos 32)) (end))

abbrev contract_ports_y : Fields
contract_ports_y = field "direction" (str "input") (field "width" (int (pos 32)) (end))

abbrev contract_ports_result : Fields
contract_ports_result = field "direction" (str "output") (field "width" (int (pos 64)) (end))

abbrev contract_ports : Fields
contract_ports = field "mul_clk" (obj contract_ports_mul_clk) (
    field "reset" (obj contract_ports_reset) (
      field "mul_signed" (obj contract_ports_mul_signed) (
        field "x" (obj contract_ports_x)
          (field "y" (obj contract_ports_y) (field "result" (obj contract_ports_result) (end))))))

abbrev contract_protocol_reset : Fields
contract_protocol_reset =
    field "signal" (str "reset")
      (field "active_level" (int (pos 1)) (field "behavior" (str "synchronous_hold") (end)))

abbrev contract_protocol : Fields
contract_protocol = field "clock" (str "mul_clk") (
    field "edge" (str "posedge") (
      field "reset" (obj contract_protocol_reset) (
        field "capture_when" (str "!reset") (
          field "latency_edges" (int (pos 1)) (
            field "warmup_active_edges" (int (pos 1)) (
              field "unknown_policy" (str "ignore_before_first_active_capture")
                (field "throughput_per_cycle" (bool true) (end))))))))

abbrev contract_stimulus : Fields
contract_stimulus = field "seed" (str "0x158aa8") (field "random_vectors" (int (pos 4096)) (end))

abbrev contract_diff : Fields
contract_diff = field "runner" (str "verilator_cycle") (field "independent_model" (bool true) (end))

abbrev contract : Fields
contract = field "schema_version" (int (pos 1)) (
    field "target" (str "mul") (
      field "module" (str "mul") (
        field "generated_file" (str "mul.v") (
          field "generator_main" (str "openla500.execute.GenerateOpenLa500Mul") (
            field "golden" (obj contract_golden) (
              field "ports" (obj contract_ports) (
                field "protocol" (obj contract_protocol) (
                  field "stimulus" (obj contract_stimulus)
                    (field "diff" (obj contract_diff) (end))))))))))

contract_accepted : validate_contract (obj contract) ≡ ok contract
unfolding validate_contract check_identity check_golden check_port check_each_port check_ports
    check_reset check_timing check_protocol check_stimulus check_diff require_text require_fields
    require_string require_integer require_relative_posix_path split_path require_object index
    lookup py_eq
contract_accepted = refl

contract_locked :
    (obj contract ≡ obj contract)
    × GoldenIsLocked contract
    × PortsAreLocked contract
    × ProtocolIsLocked contract
contract_locked = validate_contract-locked (obj contract) contract contract_accepted

null_caught : NoEscape (validate_contract null)
null_caught = validate_contract-NoEscape null

abbrev manifest_text : List ℕ
manifest_text =
    codes
      "# locked\n team_golden_candidate = a158aa8ab4d49cece1a0fe488d7ac7dc02bd8cf6\n\nupstream=a=b\n"

abbrev manifest_values : Values
manifest_values =
    (codes "team_golden_candidate", codes "a158aa8ab4d49cece1a0fe488d7ac7dc02bd8cf6")
    ∷ (codes "upstream", codes "a=b")
    ∷ []

manifest_parsed : parse_manifest true (some manifest_text) ≡ ok manifest_values
unfolding parse_manifest parse_lines parse_line parse_entry assign split_first value_of lines_after
manifest_parsed = refl

manifest-IsGiven : IsGiven (codes "upstream=a=b") manifest_values
unfolding lines_after
manifest-IsGiven =
    parse_manifest-IsGiven true manifest_text manifest_values
      (codes "# locked"
        ∷ codes " team_golden_candidate = a158aa8ab4d49cece1a0fe488d7ac7dc02bd8cf6"
        ∷ codes ""
        ∷ [])
      (codes "upstream=a=b") [] manifest_parsed refl refl

contract_pairs : reject_duplicate_keys contract ≡ ok contract
unfolding reject_duplicate_keys collect_pairs
contract_pairs = refl
