-- ===== src/Vectors/Product.antt =====
-- `mathematical_product` of tools/mul_diff.py.
use nscscc_cpu.Base.{
  ℕ, ◌+◌, ◌-◌, ◌*◌, ◌%◌, ◌^◌, ◌≤◌, ◌<◌, ◌≡◌, true, false, arith, if◌then◌else◌, ltb, ℤ, pos, negsuc,
  ◌*ℤ◌, pos_part, neg_part, ap, Bool-cases, inl, inr,
}
use nscscc_cpu.Vectors.Word.{
  word32, word64, mask32, mask64, truthy, signed32, mask32-lt, signed32_parts, signed32-mask32,
}

unfoldable pub mathematical_product : ℤ → ℤ → ℤ → ℕ
mathematical_product mul_signed x y =
    let x' : ℤ = pos (mask32 x) in
    let y' : ℤ = pos (mask32 y) in
    if truthy mul_signed then mask64 (signed32 x' *ℤ signed32 y') else mask64 (x' *ℤ y')

-- The integer that a 64-bit result stands for.
abbrev pub of_pattern64 : ℕ → ℤ
of_pattern64 w = if ltb w (2 ^ 63) then pos w else negsuc (word64 - 1 - w)

mul_bound : (a b : ℕ) → a ≤ 2 ^ 31 → b ≤ 2 ^ 31 → a * b ≤ 2 ^ 62
mul_bound a b h k = grind arith

of_pattern64-mask64 :
    (z : ℤ) → pos_part z ≤ 2 ^ 62 → neg_part z ≤ 2 ^ 62 → of_pattern64 (mask64 z) ≡ z
unfolding mask64
of_pattern64-mask64 (pos n) h k = ground arith
of_pattern64-mask64 (negsuc n) h k = ground arith

-- Both parts of an integer are at most `m`.
abbrev Within : ℕ → ℤ → Type 0
Within m z = (pos_part z ≤ m) × (neg_part z ≤ m)

*ℤ-Within : (a b : ℤ) → Within (2 ^ 31) a → Within (2 ^ 31) b → Within (2 ^ 62) (a *ℤ b)
unfolding ◌*ℤ◌
*ℤ-Within (pos n) (pos m) h k = ground (arith, mul_bound n m)
*ℤ-Within (pos n) (negsuc m) h k = ground (arith, mul_bound n (m + 1))
*ℤ-Within (negsuc n) (pos m) h k = ground (arith, mul_bound (n + 1) m)
*ℤ-Within (negsuc n) (negsuc m) h k = ground (arith, mul_bound (n + 1) (m + 1))

signed32-Within : (z : ℤ) → Within (2 ^ 31) (signed32 z)
signed32-Within z = ground (arith, signed32_parts z, mask32-lt z)

word_product : (a b : ℕ) → a < word32 → b < word32 → a * b < word64
word_product a b h k = grind arith

signed32-pos :
    (a : ℕ)
    → a < word32
    → signed32 (pos a) ≡ (if ltb a (2 ^ 31) then pos a else negsuc (word32 - 1 - a))
unfolding signed32
signed32-pos a h = ground arith

-- Modulo 2 ** 32 a factor may be replaced by its complement, with the sign changed.
complement_left : (a b p : ℕ) → a + p ≡ word32 → p * b + a * b ≡ word32 * b
complement_left a b p e = omega (arith, ap (λ (t : ℕ). t * b) e)

complement_both : (a b p q : ℕ) → a + p ≡ word32 → b + q ≡ word32 → p * q % word32 ≡ a * b % word32
complement_both a b p q e f = omega (arith, ap (λ (t : ℕ). t * b) e, ap (λ (t : ℕ). p * t) f)

-- The low words of the products of two's complements.
low_signed :
    (a b : ℕ)
    → a < word32
    → b < word32
    → mask64 (signed32 (pos a) *ℤ signed32 (pos b)) % word32 ≡ a * b % word32
unfolding mask64 ◌*ℤ◌
low_signed a b h k =
    rw (signed32-pos a h, signed32-pos b k)
      (ground (
        arith,
        word_product a b,
        complement_left a b (word32 - a),
        complement_left b a (word32 - b),
        complement_both a b (word32 - a) (word32 - b),
      ))

-- In signed mode the 64-bit result, read as a signed number, is the exact product of the two
-- operands read as signed 32-bit numbers.
pub mathematical_product-signed :
    (mul_signed x y : ℤ)
    → truthy mul_signed ≡ true
    → of_pattern64 (mathematical_product mul_signed x y) ≡ signed32 x *ℤ signed32 y
unfolding mathematical_product
mathematical_product-signed m x y h =
    let (p, q) = *ℤ-Within (signed32 x) (signed32 y) (signed32-Within x) (signed32-Within y) in
    rw (h, signed32-mask32 x, signed32-mask32 y)
      (of_pattern64-mask64 (signed32 x *ℤ signed32 y) p q)

-- In unsigned mode the result is the exact product of the two low words.
pub mathematical_product-unsigned :
    (mul_signed x y : ℤ)
    → truthy mul_signed ≡ false
    → mathematical_product mul_signed x y ≡ mask32 x * mask32 y
unfolding mathematical_product mask64 ◌*ℤ◌
mathematical_product-unsigned m x y h =
    rw h (ground (arith, word_product (mask32 x) (mask32 y), mask32-lt x, mask32-lt y))

-- The low word does not depend on the mode: it is the low word of the unsigned product.
pub mathematical_product_low :
    (mul_signed x y : ℤ)
    → mathematical_product mul_signed x y % word32 ≡ mask32 x * mask32 y % word32
unfolding mathematical_product
mathematical_product_low m x y = elim (Bool-cases (truthy m)) [
  | inl signed ↦ rw signed (low_signed (mask32 x) (mask32 y) (mask32-lt x) (mask32-lt y))
  | inr unsigned ↦ ap (λ (n : ℕ). n % word32) (mathematical_product-unsigned m x y unsigned)
]
