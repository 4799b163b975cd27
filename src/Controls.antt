-- ===== src/Controls.antt =====
-- The negative controls of tools/div_diff.py: `mutate_source`, on the bytes of the golden source.
pub mod Changed
use nscscc_cpu.Base.{
  ℕ, zero, suc, ◌+◌, Bool, true, false, not, String, str_eq, List, [], ◌∷◌, ◌++◌, Option, none,
  some, ◌==◌, codes, length, if◌then◌else◌,
}
use nscscc_cpu.Result.{Result, ok, err, refused, ◌>>=◌, ◌>>◌, refuse_if}
use nscscc_cpu.Transcript.Search.{behind, is_some}

-- `payload.count(needle)`, without overlaps: the number says how many bytes of the last occurrence
-- are still ahead.
unfoldable pub count_from : List ℕ → ℕ → List ℕ → ℕ
count_from needle ahead [] = 0
count_from needle (suc ahead) (c ∷ rest) = count_from needle ahead rest
count_from needle zero (c ∷ rest) = elim (behind needle (c ∷ rest)) [
  | none ↦ count_from needle 0 rest
  | some left ↦ 1 + count_from needle (pred (length needle)) rest
]
  where
    pred : ℕ → ℕ
    pred zero = zero
    pred (suc n) = n

-- `payload.replace(needle, replacement, 1)`
unfoldable pub replace_first : List ℕ → List ℕ → List ℕ → List ℕ
replace_first needle replacement [] = []
replace_first needle replacement (c ∷ rest) = elim (behind needle (c ∷ rest)) [
  | none ↦ c ∷ replace_first needle replacement rest
  | some left ↦ replacement ++ left
]

-- The needle and the replacement of each kind of control.
unfoldable pub control : String → Option (String × String)
control kind =
    if str_eq kind "result_bit_flip"
    then some ("assign s = TmpS[31:0];", "assign s = TmpS[31:0] ^ 32'h00000001;")
    else if str_eq kind "complete_timing"
    then some ("assign complete = (count == 8'hff);", "assign complete = (count == 8'hfe);")
    else if str_eq kind "remainder_capture_bit_flip"
    then some ("UnsignR <= tmp_r;", "UnsignR <= tmp_r ^ 33'h000000001;")
    else none

unfoldable pub mutate_source : List ℕ → String → Result (List ℕ)
mutate_source payload kind = elim (control kind) [
  | none ↦ err (refused "unknown negative control")
  | some (needle, replacement) ↦ do
    refuse_if (not (count_from (codes needle) 0 payload == 1))
        "negative control anchor is not unique"
    ok (replace_first (codes needle) (codes replacement) payload)
]
