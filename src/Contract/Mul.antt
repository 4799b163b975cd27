-- ===== src/Contract/Mul.antt =====
-- `validate_contract` of tools/mul_contract.py, one function per group of fields.
pub mod Locked
pub mod Steps
pub mod Caught
use nscscc_cpu.Base.{
  ℕ, Bool, true, false, not, ◌&&◌, ◌||◌, String, str_eq, List, [], ◌∷◌, codes, same_set, elem, ltb,
  is_hex_text, map, ◌==◌, pos,
}
use nscscc_cpu.Result.{Result, ok, err, refused, ◌>>=◌, ◌>>◌, require, refuse_if}
use nscscc_cpu.Json.{Json, int, str, Fields, keys, is_text, is_true, py_eq}
use nscscc_cpu.Iteration.Require.{require_object, index}
use nscscc_cpu.Contract.Fields.{
  require_fields, require_string, require_integer, require_relative_posix_path, is_seed,
}

pub record Port : Type 0 where
  pub name : String
  pub direction : String
  pub width : ℕ

abbrev pub locked_ports : List Port
locked_ports =
    record { name = "mul_clk"; direction = "input"; width = 1 }
    ∷ record { name = "reset"; direction = "input"; width = 1 }
    ∷ record { name = "mul_signed"; direction = "input"; width = 1 }
    ∷ record { name = "x"; direction = "input"; width = 32 }
    ∷ record { name = "y"; direction = "input"; width = 32 }
    ∷ record { name = "result"; direction = "output"; width = 64 }
    ∷ []

abbrev pub port_name : Port → String
port_name p = p.name

abbrev pub top_fields : List String
top_fields =
    "schema_version" ∷ "target" ∷ "module" ∷ "generated_file" ∷ "generator_main" ∷ "golden"
    ∷ "ports" ∷ "protocol" ∷ "stimulus" ∷ "diff" ∷ []

abbrev pub golden_sha256 : String
golden_sha256 = "251d2bba3e659c294c9a004bbb2b542435fcfa0b0c1582cc1a7a3edca765a4c0"

abbrev pub golden_size : ℕ
golden_size = 6045

-- `d[key] != text`, which only that text escapes.
unfoldable pub require_text : String → Fields → String → Result (Unit {0})
require_text key d text = do
  value ← index key d
  require (is_text text value) "must be the locked text"

-- `isinstance(value, str)` and 64 lowercase hexadecimal digits
abbrev pub is_digest : Json → Bool
is_digest (str s) = is_hex_text 64 s
is_digest _ = false

abbrev pub is_seed_text : Json → Bool
is_seed_text (str s) = is_seed (codes s)
is_seed_text _ = false

-- From `schema_version` to `generator_main`. A module that is the text "mul" is an identifier.
unfoldable pub check_identity : Fields → Result (Unit {0})
check_identity top = do
  require_fields top_fields top
  value ← index "schema_version" top
  schema_version ← require_integer 1 value
  require (schema_version == 1) "schema_version must be 1"
  require_text "target" top "mul"
  require_text "module" top "mul"
  require_text "generated_file" top "mul.v"
  require_text "generator_main" top "openla500.execute.GenerateOpenLa500Mul"

unfoldable pub check_golden : Fields → Result (Unit {0})
check_golden top = do
  value ← index "golden" top
  golden ← require_object value
  require_fields ("commit_key" ∷ "path" ∷ "sha256" ∷ "size" ∷ []) golden
  require_text "commit_key" golden "team_golden_candidate"
  require_text "path" golden "rtl/mul.v"
  path ← index "path" golden
  require_relative_posix_path path
  sha256 ← index "sha256" golden
  require (is_digest sha256) "golden.sha256 must be 64 lowercase hexadecimal characters"
  require (is_text golden_sha256 sha256) "golden.sha256 is not the locked mul blob hash"
  size_value ← index "size" golden
  size ← require_integer 1 size_value
  require (size == golden_size) "golden.size is not the locked mul blob size"

-- One round of the loop over the locked ports.
unfoldable pub check_port : Fields → Port → Result (Unit {0})
check_port ports expected = do
  value ← index expected.name ports
  port ← require_object value
  require (same_set (keys port) ("direction" ∷ "width" ∷ [])) "fields must be direction,width"
  direction_value ← index "direction" port
  direction ← require_string direction_value
  require (elem direction ("input" ∷ "output" ∷ "inout" ∷ [])) "direction is invalid"
  width_value ← index "width" port
  width ← require_integer 1 width_value
  require (str_eq direction expected.direction && width == expected.width)
      "does not match the locked interface"

unfoldable pub check_each_port : Fields → List Port → Result (Unit {0})
check_each_port ports [] = ok tt
check_each_port ports (expected ∷ rest) = do check_port ports expected; check_each_port ports rest

unfoldable pub check_ports : Fields → Result (Unit {0})
check_ports top = do
  value ← index "ports" top
  ports ← require_object value
  require (same_set (keys ports) (map port_name locked_ports))
      "ports must contain exactly the ports"
  check_each_port ports locked_ports

-- `reset["active_level"] != 1` compares by `==`: `true` and `1.0` are 1 as well.
unfoldable pub check_reset : Fields → Result (Unit {0})
check_reset protocol = do
  value ← index "reset" protocol
  reset ← require_object value
  require_fields ("signal" ∷ "active_level" ∷ "behavior" ∷ []) reset
  require_text "signal" reset "reset"
  active_level ← index "active_level" reset
  require (py_eq active_level (int (pos 1))) "protocol.reset must use reset active_level=1"
  require_text "behavior" reset "synchronous_hold"

abbrev pub protocol_fields : List String
protocol_fields =
    "clock" ∷ "edge" ∷ "reset" ∷ "capture_when" ∷ "latency_edges" ∷ "warmup_active_edges"
    ∷ "unknown_policy" ∷ "throughput_per_cycle" ∷ []

unfoldable pub check_timing : Fields → Result (Unit {0})
check_timing protocol = do
  require_text "capture_when" protocol "!reset"
  latency_value ← index "latency_edges" protocol
  latency_edges ← require_integer 1 latency_value
  require (latency_edges == 1) "protocol.latency_edges must be 1"
  warmup_value ← index "warmup_active_edges" protocol
  warmup_active_edges ← require_integer 1 warmup_value
  refuse_if (ltb warmup_active_edges latency_edges)
      "protocol.warmup_active_edges must cover latency_edges"
  require_text "unknown_policy" protocol "ignore_before_first_active_capture"
  throughput ← index "throughput_per_cycle" protocol
  require (is_true throughput) "protocol.throughput_per_cycle must be true"

unfoldable pub check_protocol : Fields → Result (Unit {0})
check_protocol top = do
  value ← index "protocol" top
  protocol ← require_object value
  require_fields protocol_fields protocol
  require_text "clock" protocol "mul_clk"
  require_text "edge" protocol "posedge"
  check_reset protocol
  check_timing protocol

unfoldable pub check_stimulus : Fields → Result (Unit {0})
check_stimulus top = do
  value ← index "stimulus" top
  stimulus ← require_object value
  require_fields ("seed" ∷ "random_vectors" ∷ []) stimulus
  seed ← index "seed" stimulus
  require (is_seed_text seed) "stimulus.seed must be a lowercase hexadecimal 0x string"
  count_value ← index "random_vectors" stimulus
  count ← require_integer 4096 count_value
  refuse_if (ltb count 4096) "stimulus.random_vectors must be >= 4096"

unfoldable pub check_diff : Fields → Result (Unit {0})
check_diff top = do
  value ← index "diff" top
  diff ← require_object value
  require_fields ("runner" ∷ "independent_model" ∷ []) diff
  require_text "runner" diff "verilator_cycle"
  independent ← index "independent_model" diff
  require (is_true independent) "diff.independent_model must be true"

-- The copy that the function returns has the value of the contract.
unfoldable pub validate_contract : Json → Result Fields
validate_contract document = do
  top ← require_object document
  check_identity top
  check_golden top
  check_ports top
  check_protocol top
  check_stimulus top
  check_diff top
  ok top
