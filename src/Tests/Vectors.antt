-- ===== src/Tests/Vectors.antt =====
-- The arithmetic and the vector suites at concrete inputs.
use native.Mathlib.Nat.{pow-suc}
use nscscc_cpu.Base.{
  ℕ, zero, suc, ◌+◌, ◌*◌, ◌%◌, ◌^◌, ◌<◌, ◌≡◌, refl, codes, List, [], ◌∷◌, map, arith, pos, negsuc,
  ◌*ℤ◌, pos_part,
}
use nscscc_cpu.Result.{ok, err, refused, ◌>>=◌}
use nscscc_cpu.Vectors.Word.{mask32, mask64, signed32}
use nscscc_cpu.Vectors.Product.{mathematical_product, of_pattern64, mathematical_product-signed}
use nscscc_cpu.Vectors.Division.{
  mathematical_division, IsSignedQuotient, Overflows, mathematical_division-unsigned,
  mathematical_division-signed, signed_division,
}
use nscscc_cpu.Vectors.Suite.{
  Vector, Random, vector_rows, div_make_vectors, write_vector_file, div_header, vector_row,
  hex_word,
}
use nscscc_cpu.Vectors.Suite.Written.{read_row, vector_rows_read, div_suite_written}

product_runs :
    (mathematical_product (pos 1) (pos 0xFFFFFFFF) (pos 2) ≡ 0xFFFFFFFFFFFFFFFE)
    × (mathematical_product (pos 0) (pos 0xFFFFFFFF) (pos 2) ≡ 0x1FFFFFFFE)
    × (mathematical_product (pos 1) (negsuc 0) (negsuc 2) ≡ 3)
unfolding mathematical_product signed32 mask32 mask64 ◌*ℤ◌
product_runs = (refl, refl, refl)

division_runs :
    (mathematical_division (pos 1) (pos 0xFFFFFFF9) (pos 2) ≡ (0xFFFFFFFD, 0xFFFFFFFF))
    × (mathematical_division (pos 1) (pos 0x80000000) (pos 0xFFFFFFFF) ≡ (0x80000000, 0))
    × (mathematical_division (pos 1) (pos 0xFFFFFFF9) (pos 0) ≡ (1, 0xFFFFFFF9))
    × (mathematical_division (pos 0) (pos 7) (pos 0) ≡ (0xFFFFFFFF, 7))
unfolding mathematical_division signed_division signed32 mask32
division_runs = (refl, refl, refl, refl)

signed_three :
    of_pattern64 (mathematical_product (pos 1) (pos 0xFFFFFFFF) (pos 2))
    ≡ signed32 (pos 0xFFFFFFFF) *ℤ signed32 (pos 2)
signed_three = mathematical_product-signed (pos 1) (pos 0xFFFFFFFF) (pos 2) refl

unsigned_quotient :
    let (q, r) = mathematical_division (pos 0) (pos 17) (pos 5) in
    (q * mask32 (pos 5) + r ≡ mask32 (pos 17)) × (r < mask32 (pos 5))
unsigned_quotient =
    mathematical_division-unsigned (pos 0) (pos 17) (pos 5) refl (unfold mask32 in omega arith)

no_overflow : ¬ (Overflows (signed32 (pos 0xFFFFFFF9)) (signed32 (pos 2)))
unfolding signed32
no_overflow h = omega arith

signed_quotient :
    let (q, r) = mathematical_division (pos 1) (pos 0xFFFFFFF9) (pos 2) in
    IsSignedQuotient (signed32 (pos 0xFFFFFFF9)) (signed32 (pos 2)) q r
signed_quotient =
    mathematical_division-signed (pos 1) (pos 0xFFFFFFF9) (pos 2) refl
      (unfold mask32 in omega arith) no_overflow

two_pow_pos : (k : ℕ) → 0 < 2 ^ k
two_pow_pos zero = omega arith
two_pow_pos (suc k) = rw pow-suc (omega (arith, two_pow_pos k))

-- A generator whose draws follow its own counter.
counter-lt : (k s : ℕ) → s * 1000003 % 2 ^ k < 2 ^ k
counter-lt k s = omega (arith, two_pow_pos k)

abbrev counter : Random
counter = record {
  State = ℕ;
  seeded = pos_part;
  getrandbits = λ k s. (s * 1000003 % 2 ^ k, s + 1);
  getrandbits-lt = counter-lt;
}

abbrev two_vectors : List Vector
two_vectors =
    (record { signed = pos 1; x = pos 0xDEADBEEF; y = pos 7 })
    ∷ (record { signed = pos 0; x = pos 5; y = pos 0 })
    ∷ []

abbrev two_rows : List (List ℕ)
two_rows = codes "1 deadbeef 00000007" ∷ codes "0 00000005 00000000" ∷ []

two_rows_written : vector_rows two_vectors ≡ ok two_rows
unfolding vector_rows vector_row hex_word
two_rows_written = refl

two_rows_read : map read_row two_rows ≡ two_vectors
two_rows_read = vector_rows_read two_vectors two_rows two_rows_written

wide_vector_refused :
    vector_rows ((record { signed = pos 2; x = pos 0; y = pos 0 }) ∷ [])
    ≡ err (refused "vector contains a value outside the locked width")
unfolding vector_rows
wide_vector_refused = refl

default_written :
    (content : List ℕ) × ((div_make_vectors counter (pos 7) (pos 4096) >>= λ made.
    write_vector_file div_header made.0)
      ≡ ok (content, 40 + pos_part (pos 4096)))
default_written = div_suite_written counter (pos 7) (pos 4096) (omega arith)
