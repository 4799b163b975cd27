-- ===== src/Vectors/Division.antt =====
-- `mathematical_division` of tools/div_diff.py.
use nscscc_cpu.Base.{
  ℕ, zero, suc, refl, ◌+◌, ◌-◌, ◌*◌, ◌/◌, ◌%◌, ◌^◌, ◌≤◌, ◌<◌, ◌≡◌, ◌≢◌, ◌⊎◌, true, false, not, Bool,
  ◌&&◌, arith, if◌then◌else◌, ◌==◌, ℤ, pos, negsuc, ◌*ℤ◌, ◌+ℤ◌, sub_ℕ, ltb_ℤ, pos_part, neg_part,
  inl,
}
use nscscc_cpu.Vectors.Word.{
  word32, mask32, truthy, signed32, mask32-lt, signed32_parts, signed32-mask32,
  signed32-mask32_fits, mask32_small,
}

abbrev pub is_negative : ℤ → Bool
is_negative z = ltb_ℤ z (pos 0)

-- `abs(z)`
abbrev pub magnitude : ℤ → ℕ
magnitude z = pos_part z + neg_part z

-- `-n if flip else n`
abbrev pub with_sign : Bool → ℕ → ℤ
with_sign flip n = if flip then sub_ℕ 0 n else pos n

-- `p != q` on truth values
abbrev pub differ : Bool → Bool → Bool
differ true q = not q
differ false q = q

-- Division towards zero on the magnitudes, with the signs put back.
unfoldable pub signed_division : ℤ → ℤ → ℕ × ℕ
signed_division sx sy =
    let quotient : ℕ = magnitude sx / magnitude sy in
    let remainder : ℕ = magnitude sx % magnitude sy in
    (
      mask32 (with_sign (differ (is_negative sx) (is_negative sy)) quotient),
      mask32 (with_sign (is_negative sx) remainder),
    )

-- The quotient and the remainder of DIV.W and MOD.W.
unfoldable pub mathematical_division : ℤ → ℤ → ℤ → ℕ × ℕ
mathematical_division signed_mode x y =
    let x' : ℕ = mask32 x in
    let y' : ℕ = mask32 y in
    let sx : ℤ = signed32 (pos x') in
    let sy : ℤ = signed32 (pos y') in
    if y' == 0
    then (if truthy signed_mode && is_negative sx then (1, x') else (word32 - 1, x'))
    else if not (truthy signed_mode)
    then (mask32 (pos (x' / y')), mask32 (pos (x' % y')))
    else signed_division sx sy

div_mod : (n d : ℕ) → d ≢ 0 → (n / d * d + n % d ≡ n) × (n % d < d) × (n / d ≤ n)
div_mod n d h = grind arith

-- Unsigned division by a divisor that is not 0 is Euclidean division of the words.
pub mathematical_division-unsigned :
    (signed_mode x y : ℤ)
    → truthy signed_mode ≡ false
    → mask32 y ≢ 0
    → let (q, r) = mathematical_division signed_mode x y in
      (q * mask32 y + r ≡ mask32 x) × (r < mask32 y)
unfolding mathematical_division
mathematical_division-unsigned m x y h k = rw h (
    ground (
      arith,
      div_mod (mask32 x) (mask32 y),
      mask32_small (mask32 x / mask32 y),
      mask32_small (mask32 x % mask32 y),
      mask32-lt x,
      mask32-lt y,
    ))

-- The quotient of magnitudes passes 2 ** 31 - 1 only for -2 ** 31 divided by 1 or -1.
quotient_bound : (n d : ℕ) → d ≢ 0 → n ≤ 2 ^ 31 → (n / d < 2 ^ 31) ⊎ ((n ≡ 2 ^ 31) × (d ≡ 1))
quotient_bound n zero h k = absurd (h refl)
quotient_bound n (suc zero) h k = grind arith
quotient_bound n (suc (suc d)) h k = inl (grind arith)

-- The one division whose quotient does not fit: -2 ** 31 by -1.
abbrev pub Overflows : ℤ → ℤ → Type 0
Overflows sx sy = (neg_part sx ≡ 2 ^ 31) × (neg_part sy ≡ 1)

-- On magnitudes with their signs put back, quotient times divisor plus remainder is the dividend.
signs_recombine :
    (sx sy : ℤ)
    → magnitude sy ≢ 0
    → with_sign (differ (is_negative sx) (is_negative sy)) (magnitude sx / magnitude sy) *ℤ sy
        +ℤ with_sign (is_negative sx) (magnitude sx % magnitude sy)
      ≡ sx
unfolding ◌*ℤ◌ ◌+ℤ◌
signs_recombine (pos n) (pos m) h = ground (arith, div_mod n m)
signs_recombine (pos n) (negsuc m) h = ground (arith, div_mod n (suc m))
signs_recombine (negsuc n) (pos m) h = ground (arith, div_mod (suc n) m)
signs_recombine (negsuc n) (negsuc m) h = ground (arith, div_mod (suc n) (suc m))

-- The sign of a quotient whose magnitude reaches 2 ** 31 is negative, unless the division
-- overflows.
quotient_fits :
    (sx sy : ℤ)
    → magnitude sy ≢ 0
    → magnitude sx ≤ 2 ^ 31
    → pos_part sx < 2 ^ 31
    → ¬ (Overflows sx sy)
    → let q = with_sign (differ (is_negative sx) (is_negative sy)) (magnitude sx / magnitude sy) in
      (pos_part q < 2 ^ 31) × (neg_part q ≤ 2 ^ 31)
quotient_fits (pos n) (pos m) h k l o = ground (arith, quotient_bound n m)
quotient_fits (pos n) (negsuc m) h k l o = ground (arith, quotient_bound n (suc m))
quotient_fits (negsuc n) (pos m) h k l o = ground (arith, quotient_bound (suc n) m)
quotient_fits (negsuc n) (negsuc m) h k l o =
    ground (arith, quotient_bound (suc n) (suc m), λ (p : suc n ≡ 2 ^ 31) (q : suc m ≡ 1). o (p, q))

remainder_fits :
    (sx sy : ℤ)
    → magnitude sy ≢ 0
    → magnitude sy ≤ 2 ^ 31
    → let r = with_sign (is_negative sx) (magnitude sx % magnitude sy) in
      (pos_part r < 2 ^ 31) × (neg_part r ≤ 2 ^ 31) × (magnitude r < magnitude sy)
remainder_fits sx sy h k = ground (arith, div_mod (magnitude sx) (magnitude sy))

-- What signed division promises of the patterns `q` and `r`.
pub record IsSignedQuotient (sx sy : ℤ) (q r : ℕ) : Type 0 where
  pub recombines : signed32 (pos q) *ℤ sy +ℤ signed32 (pos r) ≡ sx
  pub smaller : magnitude (signed32 (pos r)) < magnitude sy
  pub sign : (is_negative (signed32 (pos r)) && not (is_negative sx)) ≡ false

signed_division-IsSignedQuotient :
    (sx sy : ℤ)
    → magnitude sy ≢ 0
    → magnitude sy ≤ 2 ^ 31
    → magnitude sx ≤ 2 ^ 31
    → pos_part sx < 2 ^ 31
    → ¬ (Overflows sx sy)
    → IsSignedQuotient sx sy (signed_division sx sy).0 (signed_division sx sy).1
unfolding signed_division
signed_division-IsSignedQuotient sx sy h k l m o =
    let (q₊, q₋) = quotient_fits sx sy h l m o in
    let (r₊, r₋, small) = remainder_fits sx sy h k in
    let eq =
      signed32-mask32_fits
        (with_sign (differ (is_negative sx) (is_negative sy)) (magnitude sx / magnitude sy)) q₊
        q₋ in
    let er =
      signed32-mask32_fits (with_sign (is_negative sx) (magnitude sx % magnitude sy)) r₊ r₋ in
    record {
      recombines = rw (eq, er) (signs_recombine sx sy h);
      smaller = rw er small;
      sign = rw er (ground arith);
    }

signed_branch :
    (signed_mode x y : ℤ)
    → truthy signed_mode ≡ true
    → mask32 y ≢ 0
    → mathematical_division signed_mode x y ≡ signed_division (signed32 x) (signed32 y)
unfolding mathematical_division
signed_branch m x y h k =
    let nonzero : (mask32 y == 0) ≡ false = ground arith in
    rw (nonzero, h, signed32-mask32 x, signed32-mask32 y) refl

signed32-magnitude :
    (z : ℤ)
    → (magnitude (signed32 z) ≤ 2 ^ 31)
      × (pos_part (signed32 z) < 2 ^ 31)
      × (mask32 z ≢ 0 → magnitude (signed32 z) ≢ 0)
signed32-magnitude z = ground (arith, signed32_parts z, mask32-lt z)

-- Signed division by a divisor that is not 0, but for -2 ** 31 by -1: the quotient times the
-- divisor
-- plus the remainder is the dividend, all read as signed words; the remainder is smaller than the
-- divisor in magnitude, and is negative only if the dividend is.
pub mathematical_division-signed :
    (signed_mode x y : ℤ)
    → truthy signed_mode ≡ true
    → mask32 y ≢ 0
    → ¬ (Overflows (signed32 x) (signed32 y))
    → let (q, r) = mathematical_division signed_mode x y in
      IsSignedQuotient (signed32 x) (signed32 y) q r
mathematical_division-signed m x y h k o =
    let (small_x, pos_x, _) = signed32-magnitude x in
    let (small_y, _, nonzero) = signed32-magnitude y in
    rw (signed_branch m x y h k) (
      signed_division-IsSignedQuotient (signed32 x) (signed32 y) (nonzero k) small_y small_x pos_x
        o)
