-- ===== src/Tests/Divider.antt =====
-- The divider contract that the repository holds (reference/component-contracts/div.json).
use nscscc_cpu.Base.{true, ◌≡◌, refl, pos}
use nscscc_cpu.Result.{ok}
use nscscc_cpu.Json.{int, str, obj, bool, arr, cons, nil, Fields, end, field, lookup, py_eq}
use nscscc_cpu.Iteration.Require.{require_object, index}
use nscscc_cpu.Contract.Fields.{
  require_fields, require_string, require_integer, require_relative_posix_path, split_path,
}
use nscscc_cpu.Contract.Exact.{require_exact, require_each, require_section}
use nscscc_cpu.Contract.Exact.Held.{HoldsEach}
use nscscc_cpu.Contract.Div.Values.{div_ports, locked_identity}
use nscscc_cpu.Contract.Div.{
  require_digest, identity_section, golden_section, normalize_port, normalize_each, ports_section,
  completion_section, protocol_section, arithmetic_section, stimulus_section, diff_section,
  with_field, validate_contract,
}
use nscscc_cpu.Contract.Div.Accepted.{
  GoldenHolds, ProtocolHolds, ArithmeticHolds, all_port_fields, validate_contract-accepted,
}

abbrev div_contract_golden : Fields
div_contract_golden = field "commit_key" (str "team_golden_candidate") (
    field "path" (str "rtl/div.v") (
      field "git_blob_sha1" (str "225827c7d69addd280cb671c17e067a406a9171f") (
        field "sha256" (str "7e499f4c43c92154d1d4e21be2f269ac140b4f2b2d944677c71f6f4213b66dc6")
          (field "size" (int (pos 2642)) (end)))))

abbrev div_contract_ports_div_clk : Fields
div_contract_ports_div_clk = field "direction" (str "input") (field "width" (int (pos 1)) (end))

abbrev div_contract_ports_reset : Fields
div_contract_ports_reset = field "direction" (str "input") (field "width" (int (pos 1)) (end))

abbrev div_contract_ports_div : Fields
div_contract_ports_div = field "direction" (str "input") (field "width" (int (pos 1)) (end))

abbrev div_contract_ports_div_signed : Fields
div_contract_ports_div_signed = field "direction" (str "input") (field "width" (int (pos 1)) (end))

abbrev div_contract_ports_x : Fields
div_contract_ports_x = field "direction" (str "input") (field "width" (int (pos 32)) (end))

abbrev div_contract_ports_y : Fields
div_contract_ports_y = field "direction" (str "input") (field "width" (int (pos 32)) (end))

abbrev div_contract_ports_s : Fields
div_contract_ports_s = field "direction" (str "output") (field "width" (int (pos 32)) (end))

abbrev div_contract_ports_r : Fields
div_contract_ports_r = field "direction" (str "output") (field "width" (int (pos 32)) (end))

abbrev div_contract_ports_complete : Fields
div_contract_ports_complete = field "direction" (str "output") (field "width" (int (pos 1)) (end))

abbrev div_contract_ports : Fields
div_contract_ports = field "div_clk" (obj div_contract_ports_div_clk) (
    field "reset" (obj div_contract_ports_reset) (
      field "div" (obj div_contract_ports_div) (
        field "div_signed" (obj div_contract_ports_div_signed) (
          field "x" (obj div_contract_ports_x) (
            field "y" (obj div_contract_ports_y) (
              field "s" (obj div_contract_ports_s) (
                field "r" (obj div_contract_ports_r)
                  (field "complete" (obj div_contract_ports_complete) (end)))))))))

abbrev div_contract_protocol_reset : Fields
div_contract_protocol_reset =
    field "signal" (str "reset")
      (field "active_level" (int (pos 1)) (field "behavior" (str "synchronous_clear_idle") (end)))

abbrev div_contract_protocol_request : Fields
div_contract_protocol_request = field "signal" (str "div") (
    field "active_level" (int (pos 1)) (
      field "mode" (str "level") (
        field "accept" (str "first_active_edge_from_idle")
          (field "hold_through" (str "result_capture_edge") (end)))))

abbrev div_contract_protocol_complete : Fields
div_contract_protocol_complete = field "signal" (str "complete") (
    field "active_level" (int (pos 1)) (
      field "assert_after_consecutive_request_edges" (int (pos 33))
        (field "pulse_edges" (int (pos 1)) (end))))

abbrev div_contract_protocol_result : Fields
div_contract_protocol_result = field "capture_edge" (str "first_posedge_after_complete") (
    field "consecutive_request_edges_to_capture" (int (pos 34)) (
      field "valid_window_edges" (int (pos 1))
        (field "complete_level_during_valid_window" (int (pos 0)) (end))))

abbrev div_contract_protocol_abort : Fields
div_contract_protocol_abort =
    field "triggers"
      (arr (cons (str "reset_active_edge") (cons (str "request_low_before_result_capture") (nil))))
      (field "behavior" (str "synchronous_rearm_no_valid_result") (end))

abbrev div_contract_protocol_rearm : Fields
div_contract_protocol_rearm =
    field "low_edges_before_restart" (int (pos 1))
      (field "held_high_cleanup_edges" (int (pos 2)) (end))

abbrev div_contract_protocol : Fields
div_contract_protocol = field "clock" (str "div_clk") (
    field "edge" (str "posedge") (
      field "reset" (obj div_contract_protocol_reset) (
        field "request" (obj div_contract_protocol_request) (
          field "operands_stable" (str "from_accept_through_result_capture") (
            field "active_edges_to_complete" (int (pos 33)) (
              field "complete" (obj div_contract_protocol_complete) (
                field "result" (obj div_contract_protocol_result) (
                  field "abort" (obj div_contract_protocol_abort) (
                    field "rearm" (obj div_contract_protocol_rearm) (
                      field "unknown_policy" (str "ignore_results_before_capture_edge")
                        (end)))))))))))

abbrev div_contract_arithmetic_divide_by_zero : Fields
div_contract_arithmetic_divide_by_zero = field "unsigned_quotient" (str "0xffffffff") (
    field "signed_nonnegative_quotient" (str "0xffffffff") (
      field "signed_negative_quotient" (str "0x00000001")
        (field "remainder" (str "dividend_bits") (end))))

abbrev div_contract_arithmetic : Fields
div_contract_arithmetic = field "quotient" (str "truncate_toward_zero") (
    field "remainder_sign" (str "dividend") (
      field "signed_overflow" (str "wrap_32bit") (
        field "divide_by_zero" (obj div_contract_arithmetic_divide_by_zero)
          (field "output_width" (int (pos 32)) (end)))))

abbrev div_contract_stimulus : Fields
div_contract_stimulus =
    field "seed" (str "0x158aa8") (field "random_transactions" (int (pos 4096)) (end))

abbrev div_contract_diff : Fields
div_contract_diff =
    field "runner" (str "verilator_cycle")
      (field "independent_model" (bool true) (field "cycle_exact" (bool true) (end)))

abbrev div_contract : Fields
div_contract = field "schema_version" (int (pos 1)) (
    field "target" (str "div") (
      field "module" (str "div") (
        field "generated_file" (str "div.v") (
          field "generator_main" (str "openla500.execute.GenerateOpenLa500Div") (
            field "golden" (obj div_contract_golden) (
              field "ports" (obj div_contract_ports) (
                field "protocol" (obj div_contract_protocol) (
                  field "arithmetic" (obj div_contract_arithmetic) (
                    field "stimulus" (obj div_contract_stimulus)
                      (field "diff" (obj div_contract_diff) (end)))))))))))

div_contract_passes : validate_contract (obj div_contract) ≡ ok div_contract
unfolding validate_contract identity_section golden_section normalize_port normalize_each
    ports_section completion_section protocol_section arithmetic_section stimulus_section
    diff_section require_digest require_exact require_each require_section require_fields
    require_string require_integer require_relative_posix_path split_path require_object index
    lookup py_eq
div_contract_passes = refl

div_contract_accepted :
    (top : Fields) × (obj div_contract ≡ obj top)
    × (div_contract ≡ with_field "ports" (obj (all_port_fields div_ports)) top)
    × HoldsEach top locked_identity
    × GoldenHolds top
    × ProtocolHolds top
    × ArithmeticHolds top
div_contract_accepted =
    validate_contract-accepted (obj div_contract) div_contract div_contract_passes
