-- ===== src/Contract/Mul/Locked.antt =====
-- What a multiplier contract that is accepted says.
use nscscc_cpu.Base.{
  ℕ, true, String, str_eq, eq_iff, List, [], ◌∷◌, same_set, elem, map, ◌==◌, pos, ◌≡◌, refl, ap,
  ◌∙◌, subst, arith, and-true_parts, ==_iff, ltb,
}
use nscscc_cpu.Result.{ok, require, refuse_if, >>=-returns, require-eq-ok, ok-injective}
use nscscc_cpu.Json.{
  Json, int, str, obj, bool, Fields, end, field, lookup, keys, is_text, is_true, py_eq,
}
use nscscc_cpu.Iteration.Require.{require_object, index, require_object-eq-ok}
use nscscc_cpu.Contract.Fields.{
  require_fields, require_string, require_integer, require_relative_posix_path,
}
use nscscc_cpu.Contract.Mul.{
  Port, locked_ports, port_name, golden_sha256, golden_size, require_text, is_digest,
  check_identity, check_golden, check_port, check_each_port, check_ports, check_protocol,
  check_reset, check_timing, check_stimulus, check_diff, validate_contract, protocol_fields,
}

-- `d[key]` is the object, the text, the number.
abbrev pub HoldsObject : String → Fields → Fields → Type 0
HoldsObject key d value = index key d ≡ ok (obj value)

abbrev pub HoldsText : String → Fields → String → Type 0
HoldsText key d text = index key d ≡ ok (str text)

abbrev pub HoldsNumber : String → Fields → ℕ → Type 0
HoldsNumber key d n = index key d ≡ ok (int (pos n))

pub is_text-eq : (t : String) (v : Json) → is_text t v ≡ true → v ≡ str t
is_text-eq t (str s) h = ap str ((eq_iff s t).0 h)
is_text-eq t _ h = cc

is_true-eq : (v : Json) → is_true v ≡ true → v ≡ bool true
is_true-eq v h = ground arith

pub require_integer-eq-ok :
    (minimum : ℕ) (v : Json) (n : ℕ) → require_integer minimum v ≡ ok n → v ≡ int (pos n)
unfolding require_integer
require_integer-eq-ok minimum v n h = ground arith

pub require_string-eq-ok : (v : Json) (s : String) → require_string v ≡ ok s → v ≡ str s
unfolding require_string
require_string-eq-ok v s h = ground arith

require_text-HoldsText :
    (key : String) (d : Fields) (t : String) {u : Unit {0}}
    → require_text key d t ≡ ok u
    → HoldsText key d t
unfolding require_text
require_text-HoldsText key d t h =
    let (v, e, h') = >>=-returns (index key d) _ h in
    e ∙ ap ok (is_text-eq t v (require-eq-ok (is_text t v) _ h'))

-- The port's object has the locked direction and width.
abbrev pub PortIsLocked : Fields → Port → Type 0
PortIsLocked ports p =
    (port : Fields) × HoldsObject p.name ports port
    × HoldsText "direction" port p.direction
    × HoldsNumber "width" port p.width

check_port-PortIsLocked :
    (ports : Fields) (p : Port) {u : Unit {0}} → check_port ports p ≡ ok u → PortIsLocked ports p
unfolding check_port
check_port-PortIsLocked ports p h =
    let (v1, e1, h1) = >>=-returns (index p.name ports) _ h in
    let (port, e2, h2) = >>=-returns (require_object v1) _ h1 in
    let (_, _, h3) =
      >>=-returns (require (same_set (keys port) ("direction" ∷ "width" ∷ [])) _) _ h2 in
    let (v2, e4, h4) = >>=-returns (index "direction" port) _ h3 in
    let (direction, e5, h5) = >>=-returns (require_string v2) _ h4 in
    let (_, _, h6) =
      >>=-returns (require (elem direction ("input" ∷ "output" ∷ "inout" ∷ [])) _) _ h5 in
    let (v3, e7, h7) = >>=-returns (index "width" port) _ h6 in
    let (width, e8, h8) = >>=-returns (require_integer 1 v3) _ h7 in
    let (q1, q2) =
      and-true_parts (str_eq direction p.direction) (width == p.width) (require-eq-ok _ _ h8) in
    (
      port,
      e1 ∙ ap ok (require_object-eq-ok v1 port e2),
      e4
          ∙ ap ok
              (require_string-eq-ok v2 direction e5 ∙ ap str ((eq_iff direction p.direction).0 q1)),
      e7
          ∙ ap ok (
              require_integer-eq-ok 1 v3 width e8
              ∙ ap (λ n. int (pos n)) ((==_iff width p.width).0 q2)),
    )

abbrev pub AllPortsLocked : Fields → List Port → Type 0
AllPortsLocked ports [] = Unit
AllPortsLocked ports (p ∷ ps) = PortIsLocked ports p × AllPortsLocked ports ps

check_each_port-AllPortsLocked :
    (ports : Fields) (ps : List Port) {u : Unit {0}}
    → check_each_port ports ps ≡ ok u
    → AllPortsLocked ports ps
unfolding check_each_port
check_each_port-AllPortsLocked ports [] h = tt
check_each_port-AllPortsLocked ports (p ∷ ps) h =
    let (_, e, h') = >>=-returns (check_port ports p) _ h in
    (check_port-PortIsLocked ports p e, check_each_port-AllPortsLocked ports ps h')

-- The six ports, no other key, each with its direction and width.
abbrev pub PortsAreLocked : Fields → Type 0
PortsAreLocked top =
    (ports : Fields) × HoldsObject "ports" top ports
    × (same_set (keys ports) (map port_name locked_ports) ≡ true)
    × AllPortsLocked ports locked_ports

check_ports-PortsAreLocked :
    (top : Fields) {u : Unit {0}} → check_ports top ≡ ok u → PortsAreLocked top
unfolding check_ports
check_ports-PortsAreLocked top h =
    let (v, e1, h1) = >>=-returns (index "ports" top) _ h in
    let (ports, e2, h2) = >>=-returns (require_object v) _ h1 in
    let (_, e3, h3) =
      >>=-returns (require (same_set (keys ports) (map port_name locked_ports)) _) _ h2 in
    (
      ports,
      e1 ∙ ap ok (require_object-eq-ok v ports e2),
      require-eq-ok (same_set (keys ports) (map port_name locked_ports)) _ e3,
      check_each_port-AllPortsLocked ports locked_ports h3,
    )

-- The locked commit key, path, digest and size of the golden source.
abbrev pub GoldenIsLocked : Fields → Type 0
GoldenIsLocked top =
    (golden : Fields) × HoldsObject "golden" top golden
    × HoldsText "commit_key" golden "team_golden_candidate"
    × HoldsText "path" golden "rtl/mul.v"
    × HoldsText "sha256" golden golden_sha256
    × HoldsNumber "size" golden golden_size

check_golden-GoldenIsLocked :
    (top : Fields) {u : Unit {0}} → check_golden top ≡ ok u → GoldenIsLocked top
unfolding check_golden
check_golden-GoldenIsLocked top h =
    let (v, e1, h1) = >>=-returns (index "golden" top) _ h in
    let (golden, e2, h2) = >>=-returns (require_object v) _ h1 in
    let (_, _, h3) =
      >>=-returns (require_fields ("commit_key" ∷ "path" ∷ "sha256" ∷ "size" ∷ []) golden) _ h2 in
    let (_, e4, h4) = >>=-returns (require_text "commit_key" golden "team_golden_candidate") _ h3 in
    let (_, e5, h5) = >>=-returns (require_text "path" golden "rtl/mul.v") _ h4 in
    let (path, _, h6) = >>=-returns (index "path" golden) _ h5 in
    let (_, _, h7) = >>=-returns (require_relative_posix_path path) _ h6 in
    let (sha256, e8, h8) = >>=-returns (index "sha256" golden) _ h7 in
    let (_, _, h9) = >>=-returns (require (is_digest sha256) _) _ h8 in
    let (_, e10, h10) = >>=-returns (require (is_text golden_sha256 sha256) _) _ h9 in
    let (s, e11, h11) = >>=-returns (index "size" golden) _ h10 in
    let (n, e12, h12) = >>=-returns (require_integer 1 s) _ h11 in
    (
      golden,
      e1 ∙ ap ok (require_object-eq-ok v golden e2),
      require_text-HoldsText "commit_key" golden "team_golden_candidate" e4,
      require_text-HoldsText "path" golden "rtl/mul.v" e5,
      e8
          ∙ ap ok (
              is_text-eq golden_sha256 sha256 (require-eq-ok (is_text golden_sha256 sha256) _ e10)),
      e11
          ∙ ap ok (
              require_integer-eq-ok 1 s n e12
              ∙ ap (λ n. int (pos n))
                  ((==_iff n golden_size).0 (require-eq-ok (n == golden_size) _ h12))),
    )

-- One clock edge of latency and a result in every cycle.
abbrev pub TimingIsLocked : Fields → Type 0
TimingIsLocked protocol =
    HoldsText "capture_when" protocol "!reset"
    × HoldsNumber "latency_edges" protocol 1
    × (index "throughput_per_cycle" protocol ≡ ok (bool true))

check_timing-TimingIsLocked :
    (protocol : Fields) {u : Unit {0}} → check_timing protocol ≡ ok u → TimingIsLocked protocol
unfolding check_timing
check_timing-TimingIsLocked protocol h =
    let (_, e1, h1) = >>=-returns (require_text "capture_when" protocol "!reset") _ h in
    let (l, e2, h2) = >>=-returns (index "latency_edges" protocol) _ h1 in
    let (n, e3, h3) = >>=-returns (require_integer 1 l) _ h2 in
    let (_, e4, h4) = >>=-returns (require (n == 1) _) _ h3 in
    let (w, _, h5) = >>=-returns (index "warmup_active_edges" protocol) _ h4 in
    let (warmup, _, h6) = >>=-returns (require_integer 1 w) _ h5 in
    let (_, _, h7) = >>=-returns (refuse_if (ltb warmup n) _) _ h6 in
    let (_, _, h8) =
      >>=-returns (require_text "unknown_policy" protocol "ignore_before_first_active_capture") _
        h7 in
    let (t, e9, h9) = >>=-returns (index "throughput_per_cycle" protocol) _ h8 in
    (
      require_text-HoldsText "capture_when" protocol "!reset" e1,
      e2
          ∙ ap ok (
              require_integer-eq-ok 1 l n e3
              ∙ ap (λ n. int (pos n)) ((==_iff n 1).0 (require-eq-ok (n == 1) _ e4))),
      e9 ∙ ap ok (is_true-eq t (require-eq-ok (is_true t) _ h9)),
    )

abbrev pub ProtocolIsLocked : Fields → Type 0
ProtocolIsLocked top =
    (protocol : Fields) × HoldsObject "protocol" top protocol
    × HoldsText "clock" protocol "mul_clk"
    × HoldsText "edge" protocol "posedge"
    × TimingIsLocked protocol

check_protocol-ProtocolIsLocked :
    (top : Fields) {u : Unit {0}} → check_protocol top ≡ ok u → ProtocolIsLocked top
unfolding check_protocol
check_protocol-ProtocolIsLocked top h =
    let (v, e1, h1) = >>=-returns (index "protocol" top) _ h in
    let (protocol, e2, h2) = >>=-returns (require_object v) _ h1 in
    let (_, _, h3) = >>=-returns (require_fields protocol_fields protocol) _ h2 in
    let (_, e4, h4) = >>=-returns (require_text "clock" protocol "mul_clk") _ h3 in
    let (_, e5, h5) = >>=-returns (require_text "edge" protocol "posedge") _ h4 in
    let (_, _, h6) = >>=-returns (check_reset protocol) _ h5 in
    (
      protocol,
      e1 ∙ ap ok (require_object-eq-ok v protocol e2),
      require_text-HoldsText "clock" protocol "mul_clk" e4,
      require_text-HoldsText "edge" protocol "posedge" e5,
      check_timing-TimingIsLocked protocol h6,
    )

-- A contract that is accepted is an object that locks the golden source, the six ports and the
-- timing of the multiplier to the constants of the tool.
pub validate_contract-locked :
    (document : Json) (top : Fields)
    → validate_contract document ≡ ok top
    → (document ≡ obj top) × GoldenIsLocked top × PortsAreLocked top × ProtocolIsLocked top
unfolding validate_contract
validate_contract-locked document top h =
    let (d, e0, h0) = >>=-returns (require_object document) _ h in
    let (_, _, h1) = >>=-returns (check_identity d) _ h0 in
    let (_, e2, h2) = >>=-returns (check_golden d) _ h1 in
    let (_, e3, h3) = >>=-returns (check_ports d) _ h2 in
    let (_, e4, h4) = >>=-returns (check_protocol d) _ h3 in
    let (_, _, h5) = >>=-returns (check_stimulus d) _ h4 in
    let (_, _, h6) = >>=-returns (check_diff d) _ h5 in
    subst (λ t. (document ≡ obj t) × GoldenIsLocked t × PortsAreLocked t × ProtocolIsLocked t)
      (ok-injective d top h6)
      (
        require_object-eq-ok document d e0,
        check_golden-GoldenIsLocked d e2,
        check_ports-PortsAreLocked d e3,
        check_protocol-ProtocolIsLocked d e4,
      )

-- The reset's active level is compared by value: whatever equals 1 passes, `true` and `1.0` too.
pub check_reset_by_value :
    (level : Json)
    → py_eq level (int (pos 1)) ≡ true
    → check_reset (
        field "reset"
          (obj (
            field "signal"
              (str "reset")
              (field "active_level" level (field "behavior" (str "synchronous_hold") end))))
          end)
      ≡ ok tt
unfolding check_reset require_text require_fields require_object index lookup
check_reset_by_value level h = rw (h) refl
