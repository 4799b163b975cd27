-- ===== src/Contract/Div/Values.antt =====
-- The constants of tools/div_contract.py: the fields of each object and the locked values.
use nscscc_cpu.Base.{String, List, [], ◌∷◌, pos, true}
use nscscc_cpu.Json.{bool, int, str, arr, nil, cons}
use nscscc_cpu.Contract.Mul.{Port}
use nscscc_cpu.Contract.Exact.{Locked}

abbrev pub div_top_fields : List String
div_top_fields =
    "schema_version" ∷ "target" ∷ "module" ∷ "generated_file" ∷ "generator_main" ∷ "golden"
    ∷ "ports" ∷ "protocol" ∷ "arithmetic" ∷ "stimulus" ∷ "diff" ∷ []

abbrev pub div_golden_fields : List String
div_golden_fields = "commit_key" ∷ "path" ∷ "git_blob_sha1" ∷ "sha256" ∷ "size" ∷ []

abbrev pub div_protocol_fields : List String
div_protocol_fields =
    "clock" ∷ "edge" ∷ "reset" ∷ "request" ∷ "operands_stable" ∷ "active_edges_to_complete"
    ∷ "complete" ∷ "result" ∷ "abort" ∷ "rearm" ∷ "unknown_policy" ∷ []

abbrev pub div_reset_fields : List String
div_reset_fields = "signal" ∷ "active_level" ∷ "behavior" ∷ []

abbrev pub div_request_fields : List String
div_request_fields = "signal" ∷ "active_level" ∷ "mode" ∷ "accept" ∷ "hold_through" ∷ []

abbrev pub div_complete_fields : List String
div_complete_fields =
    "signal" ∷ "active_level" ∷ "assert_after_consecutive_request_edges" ∷ "pulse_edges" ∷ []

abbrev pub div_result_fields : List String
div_result_fields =
    "capture_edge" ∷ "consecutive_request_edges_to_capture" ∷ "valid_window_edges"
    ∷ "complete_level_during_valid_window" ∷ []

abbrev pub div_abort_fields : List String
div_abort_fields = "triggers" ∷ "behavior" ∷ []

abbrev pub div_rearm_fields : List String
div_rearm_fields = "low_edges_before_restart" ∷ "held_high_cleanup_edges" ∷ []

abbrev pub div_arithmetic_fields : List String
div_arithmetic_fields =
    "quotient" ∷ "remainder_sign" ∷ "signed_overflow" ∷ "divide_by_zero" ∷ "output_width" ∷ []

abbrev pub div_divide_by_zero_fields : List String
div_divide_by_zero_fields =
    "unsigned_quotient" ∷ "signed_nonnegative_quotient" ∷ "signed_negative_quotient" ∷ "remainder"
    ∷ []

abbrev pub div_stimulus_fields : List String
div_stimulus_fields = "seed" ∷ "random_transactions" ∷ []

abbrev pub div_diff_fields : List String
div_diff_fields = "runner" ∷ "independent_model" ∷ "cycle_exact" ∷ []

abbrev pub div_ports : List Port
div_ports =
    record { name = "div_clk"; direction = "input"; width = 1 }
    ∷ record { name = "reset"; direction = "input"; width = 1 }
    ∷ record { name = "div"; direction = "input"; width = 1 }
    ∷ record { name = "div_signed"; direction = "input"; width = 1 }
    ∷ record { name = "x"; direction = "input"; width = 32 }
    ∷ record { name = "y"; direction = "input"; width = 32 }
    ∷ record { name = "s"; direction = "output"; width = 32 }
    ∷ record { name = "r"; direction = "output"; width = 32 }
    ∷ record { name = "complete"; direction = "output"; width = 1 }
    ∷ []

abbrev pub locked_identity : Locked
locked_identity =
    ("schema_version", int (pos 1))
    ∷ ("target", str "div")
    ∷ ("module", str "div")
    ∷ ("generated_file", str "div.v")
    ∷ ("generator_main", str "openla500.execute.GenerateOpenLa500Div")
    ∷ []

abbrev pub locked_source : Locked
locked_source = ("commit_key", str "team_golden_candidate") ∷ ("path", str "rtl/div.v") ∷ []

abbrev pub locked_blob : Locked
locked_blob = ("git_blob_sha1", str "225827c7d69addd280cb671c17e067a406a9171f") ∷ []

abbrev pub locked_digest : Locked
locked_digest =
    ("sha256", str "7e499f4c43c92154d1d4e21be2f269ac140b4f2b2d944677c71f6f4213b66dc6")
    ∷ ("size", int (pos 2642))
    ∷ []

abbrev pub locked_clock : Locked
locked_clock = ("clock", str "div_clk") ∷ ("edge", str "posedge") ∷ []

abbrev pub locked_reset : Locked
locked_reset =
    ("signal", str "reset")
    ∷ ("active_level", int (pos 1))
    ∷ ("behavior", str "synchronous_clear_idle")
    ∷ []

abbrev pub locked_request : Locked
locked_request =
    ("signal", str "div")
    ∷ ("active_level", int (pos 1))
    ∷ ("mode", str "level")
    ∷ ("accept", str "first_active_edge_from_idle")
    ∷ ("hold_through", str "result_capture_edge")
    ∷ []

abbrev pub locked_edges : Locked
locked_edges =
    ("operands_stable", str "from_accept_through_result_capture")
    ∷ ("active_edges_to_complete", int (pos 33))
    ∷ []

abbrev pub locked_complete : Locked
locked_complete =
    ("signal", str "complete")
    ∷ ("active_level", int (pos 1))
    ∷ ("assert_after_consecutive_request_edges", int (pos 33))
    ∷ ("pulse_edges", int (pos 1))
    ∷ []

abbrev pub locked_result : Locked
locked_result =
    ("capture_edge", str "first_posedge_after_complete")
    ∷ ("consecutive_request_edges_to_capture", int (pos 34))
    ∷ ("valid_window_edges", int (pos 1))
    ∷ ("complete_level_during_valid_window", int (pos 0))
    ∷ []

abbrev pub locked_abort : Locked
locked_abort =
    (
      "triggers",
      arr (cons (str "reset_active_edge") (cons (str "request_low_before_result_capture") nil)),
    )
    ∷ ("behavior", str "synchronous_rearm_no_valid_result")
    ∷ []

abbrev pub locked_rearm : Locked
locked_rearm =
    ("low_edges_before_restart", int (pos 1)) ∷ ("held_high_cleanup_edges", int (pos 2)) ∷ []

abbrev pub locked_unknown : Locked
locked_unknown = ("unknown_policy", str "ignore_results_before_capture_edge") ∷ []

abbrev pub locked_arithmetic : Locked
locked_arithmetic =
    ("quotient", str "truncate_toward_zero")
    ∷ ("remainder_sign", str "dividend")
    ∷ ("signed_overflow", str "wrap_32bit")
    ∷ ("output_width", int (pos 32))
    ∷ []

abbrev pub locked_divide_by_zero : Locked
locked_divide_by_zero =
    ("unsigned_quotient", str "0xffffffff")
    ∷ ("signed_nonnegative_quotient", str "0xffffffff")
    ∷ ("signed_negative_quotient", str "0x00000001")
    ∷ ("remainder", str "dividend_bits")
    ∷ []

abbrev pub locked_seed : Locked
locked_seed = ("seed", str "0x158aa8") ∷ []

abbrev pub locked_diff : Locked
locked_diff =
    ("runner", str "verilator_cycle")
    ∷ ("independent_model", bool true)
    ∷ ("cycle_exact", bool true)
    ∷ []
