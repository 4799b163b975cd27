-- ===== src/Contract/Mul/Caught.antt =====
-- No exception of the language escapes from the validation of a multiplier contract.
use nscscc_cpu.Base.{
  true, ◌&&◌, String, str_eq, List, [], ◌∷◌, same_set, elem, map, all, ◌==◌, pos, ◌≡◌, refl,
  and-true_parts, ltb, not,
}
use nscscc_cpu.Result.{
  ok, require, >>=-returns, require-eq-ok, NoEscape, NoEscape-bind, require-NoEscape,
}
use nscscc_cpu.Json.{Json, int, Fields, keys, is_text, is_true, py_eq}
use nscscc_cpu.Iteration.Require.{require_object, index, require_object-NoEscape}
use nscscc_cpu.Contract.Fields.{require_fields, require_string, require_relative_posix_path}
use nscscc_cpu.Contract.Mul.{
  Port, locked_ports, port_name, check_identity, top_fields, protocol_fields, check_golden,
  check_port, check_each_port, check_ports, check_protocol, check_reset, check_timing,
  check_stimulus, check_diff, validate_contract, is_digest, golden_sha256, golden_size,
  is_seed_text,
}
use nscscc_cpu.Contract.Mul.Steps.{
  known_key, require_string-NoEscape, require_path-NoEscape, fields_known, require_fields-NoEscape,
  then-NoEscape, object-NoEscape, text-NoEscape, text_then, field_then, number_then, test_then,
}

check_reset-NoEscape :
    (protocol : Fields) → NoEscape (index "reset" protocol) → NoEscape (check_reset protocol)
unfolding check_reset
check_reset-NoEscape protocol found =
    let names = "signal" ∷ "active_level" ∷ "behavior" ∷ [] in
    object-NoEscape "reset" protocol names _ found (λ reset known.
      text_then reset names known "signal" "reset" _ refl (
        field_then reset names known "active_level" _ refl (λ level.
          test_then (py_eq level (int (pos 1))) _ _
            (text-NoEscape reset names known "behavior" "synchronous_hold" refl))))

check_identity-NoEscape : (top : Fields) → NoEscape (check_identity top)
unfolding check_identity
check_identity-NoEscape top =
    NoEscape-bind (require_fields top_fields top) _ (require_fields-NoEscape top_fields top) (λ _ e.
      let known = fields_known top_fields top e in
      number_then top top_fields known "schema_version" 1 _ refl (λ n. test_then (n == 1) _ _ (
        text_then top top_fields known "target" "mul" _ refl (
          text_then top top_fields known "module" "mul" _ refl (
            text_then top top_fields known "generated_file" "mul.v" _ refl (
              text-NoEscape top top_fields known "generator_main"
                "openla500.execute.GenerateOpenLa500Mul" refl))))))

check_golden-NoEscape : (top : Fields) → NoEscape (index "golden" top) → NoEscape (check_golden top)
unfolding check_golden
check_golden-NoEscape top found =
    let names = "commit_key" ∷ "path" ∷ "sha256" ∷ "size" ∷ [] in
    object-NoEscape "golden" top names _ found (λ golden known.
      text_then golden names known "commit_key" "team_golden_candidate" _ refl (
        text_then golden names known "path" "rtl/mul.v" _ refl (
          field_then golden names known "path" _ refl (λ path.
            NoEscape-bind (require_relative_posix_path path) _ (require_path-NoEscape path) (λ _ _.
              field_then golden names known "sha256" _ refl (λ sha256.
                test_then (is_digest sha256) _ _ (
                  test_then (is_text golden_sha256 sha256) _ _ (
                    number_then golden names known "size" 1 _ refl
                      (λ n. require-NoEscape (n == golden_size) _)))))))))

check_port-NoEscape :
    (ports : Fields) (p : Port) → NoEscape (index p.name ports) → NoEscape (check_port ports p)
unfolding check_port
check_port-NoEscape ports p found =
    let names = "direction" ∷ "width" ∷ [] in
    NoEscape-bind (index p.name ports) _ found (λ value _.
      NoEscape-bind (require_object value) _ (require_object-NoEscape value) (λ port _.
        NoEscape-bind (require (same_set (keys port) names) _) _
          (require-NoEscape (same_set (keys port) names) _)
          (λ _ e.
            let known = require-eq-ok (same_set (keys port) names) _ e in
            field_then port names known "direction" _ refl (λ v.
              NoEscape-bind (require_string v) _ (require_string-NoEscape v) (λ direction _.
                test_then (elem direction ("input" ∷ "output" ∷ "inout" ∷ [])) _ _ (
                  number_then port names known "width" 1 _ refl (λ width.
                    require-NoEscape (str_eq direction p.direction && width == p.width) _)))))))

check_each_port-NoEscape :
    (ports : Fields) (names : List String) (ps : List Port)
    → same_set (keys ports) names ≡ true
    → all (λ p. elem p.name names) ps ≡ true
    → NoEscape (check_each_port ports ps)
unfolding check_each_port
check_each_port-NoEscape ports names [] known h = tt
check_each_port-NoEscape ports names (p ∷ ps) known h =
    let (a, b) = and-true_parts (elem p.name names) (all (λ p. elem p.name names) ps) h in
    then-NoEscape (check_port ports p) (check_each_port ports ps)
      (check_port-NoEscape ports p (known_key p.name names ports known a))
      (check_each_port-NoEscape ports names ps known b)

check_ports-NoEscape : (top : Fields) → NoEscape (index "ports" top) → NoEscape (check_ports top)
unfolding check_ports
check_ports-NoEscape top found =
    let names = map port_name locked_ports in
    NoEscape-bind (index "ports" top) _ found (λ value _.
      NoEscape-bind (require_object value) _ (require_object-NoEscape value) (λ ports _.
        NoEscape-bind (require (same_set (keys ports) names) _) _
          (require-NoEscape (same_set (keys ports) names) _)
          (λ _ e.
            check_each_port-NoEscape ports names locked_ports
              (require-eq-ok (same_set (keys ports) names) _ e) refl)))

check_timing-NoEscape :
    (protocol : Fields)
    → same_set (keys protocol) protocol_fields ≡ true
    → NoEscape (check_timing protocol)
unfolding check_timing
check_timing-NoEscape protocol known =
    text_then protocol protocol_fields known "capture_when" "!reset" _ refl (
      number_then protocol protocol_fields known "latency_edges" 1 _ refl (λ n.
        test_then (n == 1) _ _ (
          number_then protocol protocol_fields known "warmup_active_edges" 1 _ refl (λ warmup.
            test_then (not (ltb warmup n)) _ _ (
              text_then protocol protocol_fields known "unknown_policy"
                "ignore_before_first_active_capture" _ refl
                (field_then protocol protocol_fields known "throughput_per_cycle" _ refl
                  (λ t. require-NoEscape (is_true t) _)))))))

check_protocol-NoEscape :
    (top : Fields) → NoEscape (index "protocol" top) → NoEscape (check_protocol top)
unfolding check_protocol
check_protocol-NoEscape top found =
    object-NoEscape "protocol" top protocol_fields _ found (λ protocol known.
      text_then protocol protocol_fields known "clock" "mul_clk" _ refl (
        text_then protocol protocol_fields known "edge" "posedge" _ refl (
          then-NoEscape (check_reset protocol) _
            (check_reset-NoEscape protocol (known_key "reset" protocol_fields protocol known refl))
            (check_timing-NoEscape protocol known))))

check_stimulus-NoEscape :
    (top : Fields) → NoEscape (index "stimulus" top) → NoEscape (check_stimulus top)
unfolding check_stimulus
check_stimulus-NoEscape top found =
    let names = "seed" ∷ "random_vectors" ∷ [] in
    object-NoEscape "stimulus" top names _ found (λ stimulus known.
      field_then stimulus names known "seed" _ refl (λ seed. test_then (is_seed_text seed) _ _ (
        number_then stimulus names known "random_vectors" 4096 _ refl
          (λ count. require-NoEscape (not (ltb count 4096)) _))))

check_diff-NoEscape : (top : Fields) → NoEscape (index "diff" top) → NoEscape (check_diff top)
unfolding check_diff
check_diff-NoEscape top found =
    let names = "runner" ∷ "independent_model" ∷ [] in
    object-NoEscape "diff" top names _ found (λ diff known.
      text_then diff names known "runner" "verilator_cycle" _ refl (
        field_then diff names known "independent_model" _ refl
          (λ v. require-NoEscape (is_true v) _)))

check_identity_known :
    (top : Fields) {u : Unit {0}}
    → check_identity top ≡ ok u
    → same_set (keys top) top_fields ≡ true
unfolding check_identity
check_identity_known top h =
    let (_, e, _) = >>=-returns (require_fields top_fields top) _ h in fields_known top_fields top e

-- Whatever the document is, its validation returns or raises the tool's own error.
pub validate_contract-NoEscape : (document : Json) → NoEscape (validate_contract document)
unfolding validate_contract
validate_contract-NoEscape document =
    NoEscape-bind (require_object document) _ (require_object-NoEscape document) (λ top _.
      NoEscape-bind (check_identity top) _ (check_identity-NoEscape top) (λ _ e.
        let known = check_identity_known top e in
        then-NoEscape (check_golden top) _
          (check_golden-NoEscape top (known_key "golden" top_fields top known refl))
          (then-NoEscape (check_ports top) _
            (check_ports-NoEscape top (known_key "ports" top_fields top known refl))
            (then-NoEscape (check_protocol top) _
              (check_protocol-NoEscape top (known_key "protocol" top_fields top known refl))
              (then-NoEscape (check_stimulus top) _
                (check_stimulus-NoEscape top (known_key "stimulus" top_fields top known refl))
                (then-NoEscape (check_diff top) _
                  (check_diff-NoEscape top (known_key "diff" top_fields top known refl)) tt))))))
