-- ===== src/Vectors/Word.antt =====
-- 32- and 64-bit words of Python's unbounded integers (`signed32`, `MASK32`, `MASK64`).
use nscscc_cpu.Base.{
  ℕ, ◌-◌, ◌/◌, ◌%◌, ◌^◌, ◌≤◌, ◌<◌, ◌≡◌, Bool, not, arith, leb, ◌==◌, if◌then◌else◌, ℤ, pos, negsuc,
  eqb_ℤ, pos_part, neg_part, ap,
}

abbrev pub word32 : ℕ
word32 = 2 ^ 32

abbrev pub word64 : ℕ
word64 = 2 ^ 64

-- `value & (2 ** k - 1)`, with `m` for `2 ** k`: Python's `&` reads a negative value in two's
-- complement, so -(n + 1) becomes m - 1 - n % m.
unfoldable pub mask : ℕ → ℤ → ℕ
mask m (pos n) = n % m
mask m (negsuc n) = m - 1 - n % m

unfoldable pub mask32 : ℤ → ℕ
unfolding mask
mask32 z = mask word32 z

unfoldable pub mask64 : ℤ → ℕ
unfolding mask
mask64 z = mask word64 z

-- `if n:` on an integer
abbrev pub truthy : ℤ → Bool
truthy n = not (eqb_ℤ n (pos 0))

-- The integer that a 32-bit pattern stands for: `value - (1 << 32) if value & (1 << 31)`.
unfoldable pub of_pattern32 : ℕ → ℤ
of_pattern32 v = if v / 2 ^ 31 % 2 == 0 then pos v else negsuc (word32 - 1 - v)

unfoldable pub signed32 : ℤ → ℤ
unfolding mask32 of_pattern32
signed32 value = of_pattern32 (mask32 value)

pub mask32-lt : (z : ℤ) → mask32 z < word32
unfolding mask32
mask32-lt (pos n) = omega arith
mask32-lt (negsuc n) = omega arith

-- The two parts of the signed reading of a word.
pub of_pattern32_parts :
    (v : ℕ)
    → v < word32
    → (pos_part (of_pattern32 v) ≡ (if leb (2 ^ 31) v then 0 else v))
      × (neg_part (of_pattern32 v) ≡ (if leb (2 ^ 31) v then word32 - v else 0))
unfolding of_pattern32
of_pattern32_parts v h = ground arith

pub signed32_parts :
    (z : ℤ)
    → (pos_part (signed32 z) ≡ (if leb (2 ^ 31) (mask32 z) then 0 else mask32 z))
      × (neg_part (signed32 z) ≡ (if leb (2 ^ 31) (mask32 z) then word32 - mask32 z else 0))
unfolding signed32
signed32_parts z = of_pattern32_parts (mask32 z) (mask32-lt z)

pub signed32-mask32 : (z : ℤ) → signed32 (pos (mask32 z)) ≡ signed32 z
unfolding signed32
signed32-mask32 z = ap of_pattern32 (omega (arith, mask32-lt z))

-- A value between -2 ** 31 and 2 ** 31 - 1 is the reading of its own pattern.
pub signed32-mask32_fits :
    (z : ℤ) → pos_part z < 2 ^ 31 → neg_part z ≤ 2 ^ 31 → signed32 (pos (mask32 z)) ≡ z
unfolding signed32
signed32-mask32_fits (pos n) h k = ground arith
signed32-mask32_fits (negsuc n) h k = ground arith

pub mask32_small : (n : ℕ) → n < word32 → mask32 (pos n) ≡ n
unfolding mask32
mask32_small n h = omega arith
