-- ===== src/Tests/Verilog.antt =====
-- The masking and the macro search on small texts.
use nscscc_cpu.Base.{ℕ, true, false, ◌≡◌, refl, List, [], ◌∷◌, codes}
use nscscc_cpu.Verilog.Mask.{mask_verilog_comments_and_strings, mask_from, move, last_character}
use nscscc_cpu.Verilog.Mask.Again.{mask_again}
use nscscc_cpu.Verilog.Macros.{
  referenced_verilog_macros, macros_of_code, found, condition_at, use_at, name_at, longest,
  behind_keyword,
}

abbrev sample : List ℕ
sample = codes "a//`B\n`C \"`D\" /*\n*/`IFDEF E"

mask_runs :
    (mask_verilog_comments_and_strings true sample ≡ codes "a    \n`C        \n  `IFDEF E")
    × (mask_verilog_comments_and_strings false sample ≡ codes "a    \n`C \"`D\"   \n  `IFDEF E")
unfolding mask_from move last_character
mask_runs = (refl, refl)

macro_runs : referenced_verilog_macros sample ≡ codes "E" ∷ codes "C" ∷ []
unfolding referenced_verilog_macros macros_of_code mask_from move last_character found condition_at
    use_at name_at longest behind_keyword
macro_runs = refl

sample_again :
    mask_verilog_comments_and_strings true (mask_verilog_comments_and_strings true sample)
    ≡ mask_verilog_comments_and_strings true sample
sample_again = mask_again true sample
