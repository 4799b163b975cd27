-- ===== src/Contract/Pairs.antt =====
-- `_reject_duplicate_keys` of tools/mul_contract.py, which the JSON parser calls for each object.
use nscscc_cpu.Base.{String, elem}
use nscscc_cpu.Result.{Result, ok, ◌>>◌, refuse_if}
use nscscc_cpu.Json.{Json, Fields, end, field, keys}

-- `result[key] = value` for a key that is new.
abbrev pub with_item : Fields → String → Json → Fields
with_item end key value = field key value end
with_item (field k v rest) key value = field k v (with_item rest key value)

-- The loop over the pairs.
unfoldable pub collect_pairs : Fields → Fields → Result Fields
collect_pairs result end = ok result
collect_pairs result (field key value rest) = do
  refuse_if (elem key (keys result)) "duplicate JSON key"
  collect_pairs (with_item result key value) rest

unfoldable pub reject_duplicate_keys : Fields → Result Fields
reject_duplicate_keys pairs = collect_pairs end pairs
