-- ===== src/Tests/Controls.antt =====
-- A negative control of a short source.
use nscscc_cpu.Base.{String, List, ◌++◌, ◌≡◌, ◌≢◌, refl, codes, some, ℕ}
use nscscc_cpu.Result.{ok}
use nscscc_cpu.Transcript.Search.{behind}
use nscscc_cpu.Controls.{control, count_from, replace_first, mutate_source}
use nscscc_cpu.Controls.Changed.{mutate_source-changed}

abbrev short_source : List ℕ
short_source = codes "assign r = 0; assign s = TmpS[31:0]; endmodule"

abbrev flipped_source : List ℕ
flipped_source = codes "assign r = 0; assign s = TmpS[31:0] ^ 32'h00000001; endmodule"

short_source_flipped : mutate_source short_source "result_bit_flip" ≡ ok flipped_source
unfolding mutate_source control count_from replace_first behind
short_source_flipped = refl

flip_changed :
    (needle replacement : String) × (pre post : List ℕ) × (control "result_bit_flip"
      ≡ some (needle, replacement))
    × (count_from (codes needle) 0 short_source ≡ 1)
    × (short_source ≡ pre ++ (codes needle ++ post))
    × (flipped_source ≡ pre ++ (codes replacement ++ post))
    × (short_source ≢ flipped_source)
flip_changed =
    mutate_source-changed short_source "result_bit_flip" flipped_source short_source_flipped
