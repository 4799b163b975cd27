-- ===== src/Contract/Div/Accepted.antt =====
-- What a divider contract that is accepted says, and what is returned for it.
use nscscc_cpu.Base.{
  true, ◌&&◌, String, str_eq, eq_iff, List, [], ◌∷◌, same_set, map, ◌==◌, ==_iff, ◌≡◌, refl, ap,
  ◌∙◌, sym, and-true_parts, pos,
}
use nscscc_cpu.Result.{ok, require, >>=-returns, require-eq-ok, ok-injective}
use nscscc_cpu.Json.{Json, int, str, obj, Fields, end, field, keys}
use nscscc_cpu.Iteration.Require.{require_object, index, require_object-eq-ok}
use nscscc_cpu.Contract.Fields.{
  require_fields, require_string, require_integer, require_relative_posix_path,
}
use nscscc_cpu.Contract.Mul.{Port, port_name}
use nscscc_cpu.Contract.Exact.{Locked, require_each, require_section}
use nscscc_cpu.Contract.Exact.Held.{HoldsEach, require_each-HoldsEach, require_section-HoldsEach}
use nscscc_cpu.Contract.Div.Values.{
  div_top_fields, div_golden_fields, div_protocol_fields, div_reset_fields, div_request_fields,
  div_complete_fields, div_result_fields, div_abort_fields, div_rearm_fields, div_arithmetic_fields,
  div_divide_by_zero_fields, div_ports, locked_identity, locked_source, locked_blob, locked_digest,
  locked_clock, locked_reset, locked_request, locked_edges, locked_complete, locked_result,
  locked_abort, locked_rearm, locked_unknown, locked_arithmetic, locked_divide_by_zero,
}
use nscscc_cpu.Contract.Div.{
  require_digest, identity_section, golden_section, normalize_port, normalize_each, ports_section,
  completion_section, protocol_section, arithmetic_section, stimulus_section, diff_section,
  with_field, validate_contract,
}

-- `d[key]` is an object with these fields and no others, and with the locked values.
abbrev pub Section : String → List String → Locked → Fields → Fields → Type 0
Section key names locked d section =
    (index key d ≡ ok (obj section))
    × (same_set (keys section) names ≡ true)
    × HoldsEach section locked

-- A port as the contract's constants give it.
abbrev pub port_fields : Port → Fields
port_fields p = field "direction" (str p.direction) (field "width" (int (pos p.width)) end)

abbrev pub all_port_fields : List Port → Fields
all_port_fields [] = end
all_port_fields (p ∷ ps) = field p.name (obj (port_fields p)) (all_port_fields ps)

normalize_port-eq :
    (ports : Fields) (p : Port) (j : Json) → normalize_port ports p ≡ ok j → j ≡ obj (port_fields p)
unfolding normalize_port
normalize_port-eq ports p j h =
    let (v, e1, h1) = >>=-returns (index p.name ports) _ h in
    let (port, e2, h2) = >>=-returns (require_object v) _ h1 in
    let (_, _, h3) = >>=-returns (require_fields ("direction" ∷ "width" ∷ []) port) _ h2 in
    let (v2, e4, h4) = >>=-returns (index "direction" port) _ h3 in
    let (direction, e5, h5) = >>=-returns (require_string v2) _ h4 in
    let (v3, e7, h7) = >>=-returns (index "width" port) _ h5 in
    let (width, e8, h8) = >>=-returns (require_integer 1 v3) _ h7 in
    let (_, e9, h9) =
      >>=-returns (require (str_eq direction p.direction && width == p.width) _) _ h8 in
    let (q1, q2) =
      and-true_parts (str_eq direction p.direction) (width == p.width)
        (require-eq-ok (str_eq direction p.direction && width == p.width) _ e9) in
    sym (ok-injective _ j h9)
    ∙ ap (λ d. obj (field "direction" (str d) (field "width" (int (pos width)) end)))
        ((eq_iff direction p.direction).0 q1)
    ∙ ap (λ w. obj (field "direction" (str p.direction) (field "width" (int (pos w)) end)))
        ((==_iff width p.width).0 q2)

normalize_each-eq :
    (ports : Fields) (ps : List Port) (normalized : Fields)
    → normalize_each ports ps ≡ ok normalized
    → normalized ≡ all_port_fields ps
unfolding normalize_each
normalize_each-eq ports [] normalized h = sym (ok-injective end normalized h)
normalize_each-eq ports (p ∷ ps) normalized h =
    let (j, e1, h1) = >>=-returns (normalize_port ports p) _ h in
    let (rest, e2, h2) = >>=-returns (normalize_each ports ps) _ h1 in
    sym (ok-injective (field p.name j rest) normalized h2)
    ∙ ap (λ k. field p.name k rest) (normalize_port-eq ports p j e1)
    ∙ ap (field p.name (obj (port_fields p))) (normalize_each-eq ports ps rest e2)

ports_section-eq :
    (top ports : Fields) → ports_section top ≡ ok ports → ports ≡ all_port_fields div_ports
unfolding ports_section
ports_section-eq top ports h =
    let (v, _, h1) = >>=-returns (index "ports" top) _ h in
    let (given, _, h2) = >>=-returns (require_object v) _ h1 in
    let (_, _, h3) =
      >>=-returns (require (same_set (keys given) (map port_name div_ports)) _) _ h2 in
    normalize_each-eq given div_ports ports h3

abbrev pub GoldenHolds : Fields → Type 0
GoldenHolds top =
    (golden : Fields) × Section "golden" div_golden_fields locked_source top golden
    × HoldsEach golden locked_blob
    × HoldsEach golden locked_digest

golden_section-GoldenHolds :
    (top : Fields) {u : Unit {0}} → golden_section top ≡ ok u → GoldenHolds top
unfolding golden_section
golden_section-GoldenHolds top h =
    let (golden, e1, h1) =
      >>=-returns (require_section "golden" div_golden_fields locked_source top) _ h in
    let (path, _, h2) = >>=-returns (index "path" golden) _ h1 in
    let (_, _, h3) = >>=-returns (require_relative_posix_path path) _ h2 in
    let (_, _, h4) = >>=-returns (require_digest 40 "git_blob_sha1" golden) _ h3 in
    let (_, e5, h5) = >>=-returns (require_each golden locked_blob) _ h4 in
    let (_, _, h6) = >>=-returns (require_digest 64 "sha256" golden) _ h5 in
    (
      golden,
      require_section-HoldsEach "golden" div_golden_fields locked_source top golden refl e1,
      require_each-HoldsEach golden locked_blob refl e5,
      require_each-HoldsEach golden locked_digest refl h6,
    )

-- The clocking, the request, its completion, and how a result is taken, aborted and rearmed.
abbrev pub ProtocolHolds : Fields → Type 0
ProtocolHolds top =
    (protocol : Fields) × (reset : Fields) × (request : Fields) × (complete : Fields)
    × (result : Fields) × (abort : Fields) × (rearm : Fields) × Section "protocol"
        div_protocol_fields locked_clock top protocol
    × Section "reset" div_reset_fields locked_reset protocol reset
    × Section "request" div_request_fields locked_request protocol request
    × HoldsEach protocol locked_edges
    × Section "complete" div_complete_fields locked_complete protocol complete
    × Section "result" div_result_fields locked_result protocol result
    × Section "abort" div_abort_fields locked_abort protocol abort
    × Section "rearm" div_rearm_fields locked_rearm protocol rearm
    × HoldsEach protocol locked_unknown

protocol_section-ProtocolHolds :
    (top : Fields) {u : Unit {0}} → protocol_section top ≡ ok u → ProtocolHolds top
unfolding protocol_section completion_section
protocol_section-ProtocolHolds top h =
    let (protocol, e1, h1) =
      >>=-returns (require_section "protocol" div_protocol_fields locked_clock top) _ h in
    let (reset, e2, h2) =
      >>=-returns (require_section "reset" div_reset_fields locked_reset protocol) _ h1 in
    let (request, e3, h3) =
      >>=-returns (require_section "request" div_request_fields locked_request protocol) _ h2 in
    let (_, e4, h4) = >>=-returns (require_each protocol locked_edges) _ h3 in
    let (complete, e5, h5) =
      >>=-returns (require_section "complete" div_complete_fields locked_complete protocol) _ h4 in
    let (result, e6, h6) =
      >>=-returns (require_section "result" div_result_fields locked_result protocol) _ h5 in
    let (abort, e7, h7) =
      >>=-returns (require_section "abort" div_abort_fields locked_abort protocol) _ h6 in
    let (rearm, e8, h8) =
      >>=-returns (require_section "rearm" div_rearm_fields locked_rearm protocol) _ h7 in
    (
      protocol,
      reset,
      request,
      complete,
      result,
      abort,
      rearm,
      require_section-HoldsEach "protocol" div_protocol_fields locked_clock top protocol refl e1,
      require_section-HoldsEach "reset" div_reset_fields locked_reset protocol reset refl e2,
      require_section-HoldsEach "request" div_request_fields locked_request protocol request refl
          e3,
      require_each-HoldsEach protocol locked_edges refl e4,
      require_section-HoldsEach "complete" div_complete_fields locked_complete protocol complete
          refl e5,
      require_section-HoldsEach "result" div_result_fields locked_result protocol result refl e6,
      require_section-HoldsEach "abort" div_abort_fields locked_abort protocol abort refl e7,
      require_section-HoldsEach "rearm" div_rearm_fields locked_rearm protocol rearm refl e8,
      require_each-HoldsEach protocol locked_unknown refl h8,
    )

abbrev pub ArithmeticHolds : Fields → Type 0
ArithmeticHolds top =
    (arithmetic : Fields) × (divide_by_zero : Fields) × Section "arithmetic" div_arithmetic_fields
      locked_arithmetic top arithmetic
    × Section "divide_by_zero" div_divide_by_zero_fields locked_divide_by_zero arithmetic
        divide_by_zero

arithmetic_section-ArithmeticHolds :
    (top : Fields) {u : Unit {0}} → arithmetic_section top ≡ ok u → ArithmeticHolds top
unfolding arithmetic_section
arithmetic_section-ArithmeticHolds top h =
    let (a, e1, h1) =
      >>=-returns (require_section "arithmetic" div_arithmetic_fields locked_arithmetic top) _ h in
    let (z, e2, _) =
      >>=-returns
        (require_section "divide_by_zero" div_divide_by_zero_fields locked_divide_by_zero a) _ h1 in
    (
      a,
      z,
      require_section-HoldsEach "arithmetic" div_arithmetic_fields locked_arithmetic top a refl e1,
      require_section-HoldsEach "divide_by_zero" div_divide_by_zero_fields locked_divide_by_zero a z
          refl e2,
    )

identity_section-HoldsEach :
    (top : Fields) {u : Unit {0}} → identity_section top ≡ ok u → HoldsEach top locked_identity
unfolding identity_section
identity_section-HoldsEach top h =
    let (_, _, h1) = >>=-returns (require_fields div_top_fields top) _ h in
    require_each-HoldsEach top locked_identity refl h1

-- A contract that is accepted is an object that locks the divider's identity, its golden source,
-- its
-- protocol and its arithmetic to the constants of the tool. It is returned with the ports of the
-- constants in place of its own.
pub validate_contract-accepted :
    (document : Json) (normalized : Fields)
    → validate_contract document ≡ ok normalized
    → (top : Fields) × (document ≡ obj top)
      × (normalized ≡ with_field "ports" (obj (all_port_fields div_ports)) top)
      × HoldsEach top locked_identity
      × GoldenHolds top
      × ProtocolHolds top
      × ArithmeticHolds top
unfolding validate_contract
validate_contract-accepted document normalized h =
    let (top, e0, h0) = >>=-returns (require_object document) _ h in
    let (_, e1, h1) = >>=-returns (identity_section top) _ h0 in
    let (_, e2, h2) = >>=-returns (golden_section top) _ h1 in
    let (ports, e3, h3) = >>=-returns (ports_section top) _ h2 in
    let (_, e4, h4) = >>=-returns (protocol_section top) _ h3 in
    let (_, e5, h5) = >>=-returns (arithmetic_section top) _ h4 in
    let (_, _, h6) = >>=-returns (stimulus_section top) _ h5 in
    let (_, _, h7) = >>=-returns (diff_section top) _ h6 in
    (
      top,
      require_object-eq-ok document top e0,
      sym (ok-injective (with_field "ports" (obj ports) top) normalized h7)
          ∙ ap (λ fs. with_field "ports" (obj fs) top) (ports_section-eq top ports e3),
      identity_section-HoldsEach top e1,
      golden_section-GoldenHolds top e2,
      protocol_section-ProtocolHolds top e4,
      arithmetic_section-ArithmeticHolds top e5,
    )
