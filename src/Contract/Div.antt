-- ===== src/Contract/Div.antt =====
-- `validate_contract` of tools/div_contract.py: the divider's interface, protocol and arithmetic.
pub mod Values
pub mod Accepted
use nscscc_cpu.Base.{
  ℕ, Bool, true, false, not, ◌&&◌, String, str_eq, List, [], ◌∷◌, same_set, map, is_hex_text, ltb,
  ◌==◌, pos, if◌then◌else◌,
}
use nscscc_cpu.Result.{Result, ok, err, refused, ◌>>=◌, ◌>>◌, require, refuse_if}
use nscscc_cpu.Json.{Json, bool, int, str, arr, obj, Items, nil, cons, Fields, end, field, keys}
use nscscc_cpu.Iteration.Require.{require_object, index}
use nscscc_cpu.Contract.Fields.{
  require_fields, require_string, require_integer, require_relative_posix_path,
}
use nscscc_cpu.Contract.Mul.{Port, port_name}
use nscscc_cpu.Contract.Exact.{require_exact, Locked, require_each, require_section}
use nscscc_cpu.Contract.Div.Values.{
  div_top_fields, div_golden_fields, div_protocol_fields, div_reset_fields, div_request_fields,
  div_complete_fields, div_result_fields, div_abort_fields, div_rearm_fields, div_arithmetic_fields,
  div_divide_by_zero_fields, div_stimulus_fields, div_diff_fields, div_ports, locked_identity,
  locked_source, locked_blob, locked_digest, locked_clock, locked_reset, locked_request,
  locked_edges, locked_complete, locked_result, locked_abort, locked_rearm, locked_unknown,
  locked_arithmetic, locked_divide_by_zero, locked_seed, locked_diff,
}

abbrev pub is_digits : ℕ → Json → Bool
is_digits digits (str s) = is_hex_text digits s
is_digits digits _ = false

-- `section["key"]`, a text of that many lowercase hexadecimal digits.
unfoldable pub require_digest : ℕ → String → Fields → Result (Unit {0})
require_digest digits key golden = do
  value ← index key golden
  require (is_digits digits value) "must be lowercase hexadecimal characters"

-- A module that is the text "div" is a legal identifier.
unfoldable pub identity_section : Fields → Result (Unit {0})
identity_section top = do require_fields div_top_fields top; require_each top locked_identity

unfoldable pub golden_section : Fields → Result (Unit {0})
golden_section top = do
  golden ← require_section "golden" div_golden_fields locked_source top
  path ← index "path" golden
  require_relative_posix_path path
  require_digest 40 "git_blob_sha1" golden
  require_each golden locked_blob
  require_digest 64 "sha256" golden
  require_each golden locked_digest

-- One round of the loop over the locked ports: the normalized port.
unfoldable pub normalize_port : Fields → Port → Result Json
normalize_port ports expected = do
  value ← index expected.name ports
  port ← require_object value
  require_fields ("direction" ∷ "width" ∷ []) port
  direction_value ← index "direction" port
  direction ← require_string direction_value
  width_value ← index "width" port
  width ← require_integer 1 width_value
  require (str_eq direction expected.direction && width == expected.width)
      "does not match the locked interface"
  ok (obj (field "direction" (str direction) (field "width" (int (pos width)) end)))

unfoldable pub normalize_each : Fields → List Port → Result Fields
normalize_each ports [] = ok end
normalize_each ports (expected ∷ rest) = do
  port ← normalize_port ports expected
  others ← normalize_each ports rest
  ok (field expected.name port others)

unfoldable pub ports_section : Fields → Result Fields
ports_section top = do
  value ← index "ports" top
  ports ← require_object value
  require (same_set (keys ports) (map port_name div_ports)) "ports must contain exactly the ports"
  normalize_each ports div_ports

-- From `complete` to the end of the protocol.
unfoldable pub completion_section : Fields → Result (Unit {0})
completion_section protocol = do
  complete ← require_section "complete" div_complete_fields locked_complete protocol
  result ← require_section "result" div_result_fields locked_result protocol
  abort ← require_section "abort" div_abort_fields locked_abort protocol
  rearm ← require_section "rearm" div_rearm_fields locked_rearm protocol
  require_each protocol locked_unknown

unfoldable pub protocol_section : Fields → Result (Unit {0})
protocol_section top = do
  protocol ← require_section "protocol" div_protocol_fields locked_clock top
  reset ← require_section "reset" div_reset_fields locked_reset protocol
  request ← require_section "request" div_request_fields locked_request protocol
  require_each protocol locked_edges
  completion_section protocol

unfoldable pub arithmetic_section : Fields → Result (Unit {0})
arithmetic_section top = do
  arithmetic ← require_section "arithmetic" div_arithmetic_fields locked_arithmetic top
  divide_by_zero ←
      require_section "divide_by_zero" div_divide_by_zero_fields locked_divide_by_zero arithmetic
  ok tt

unfoldable pub stimulus_section : Fields → Result (Unit {0})
stimulus_section top = do
  stimulus ← require_section "stimulus" div_stimulus_fields locked_seed top
  count_value ← index "random_transactions" stimulus
  count ← require_integer 1 count_value
  refuse_if (ltb count 4096) "stimulus.random_transactions must be >= 4096"

unfoldable pub diff_section : Fields → Result (Unit {0})
diff_section top = do diff ← require_section "diff" div_diff_fields locked_diff top; ok tt

-- `d[key] = value`, in the place of a key that is there.
abbrev pub with_field : String → Json → Fields → Fields
with_field key value end = field key value end
with_field key value (field k v rest) =
    let others = with_field key value rest in
    if str_eq k key then field k value rest else field k v others

-- The copy that is returned, with the ports in the order of the constants.
unfoldable pub validate_contract : Json → Result Fields
validate_contract document = do
  top ← require_object document
  identity_section top
  golden_section top
  ports ← ports_section top
  protocol_section top
  arithmetic_section top
  stimulus_section top
  diff_section top
  ok (with_field "ports" (obj ports) top)
