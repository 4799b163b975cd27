-- ===== src/Vectors/Suite.antt =====
-- `directed_vectors`, `make_vectors` and `write_vector_file` of tools/mul_diff.py and
-- tools/div_diff.py.
pub mod Written
use nscscc_cpu.Base.{
  ℕ, zero, suc, ◌+◌, ◌-◌, ◌*◌, ◌/◌, ◌%◌, ◌^◌, ◌≤◌, ◌<◌, Bool, ◌&&◌, ◌||◌, List, [], ◌∷◌, ◌++◌, map,
  length, codes, ltb, leb, ◌==◌, if◌then◌else◌, ℤ, pos, eqb_ℤ, ltb_ℤ, pos_part, not, String,
}
use nscscc_cpu.Result.{Result, ok, err, refused, ◌>>=◌, ◌>>◌, require, refuse_if}
use nscscc_cpu.Vectors.Word.{word32}

-- A vector is the tuple (signed, x, y).
pub record Vector : Type 0 where
  pub signed : ℤ
  pub x : ℤ
  pub y : ℤ

-- Python's `random.Random`, whose states are not the program's: `getrandbits k` is below 2 ** k.
pub record Random : Type 1 where
  pub State : Type 0
  pub seeded : ℤ → State
  pub getrandbits : ℕ → State → ℕ × State
  pub getrandbits-lt : (k : ℕ) (s : State) → (getrandbits k s).0 < 2 ^ k

abbrev both_modes : List (ℕ × ℕ) → List Vector
both_modes values =
    map (λ (x, y). record { signed = pos 0; x = pos x; y = pos y }) values
    ++ map (λ (x, y). record { signed = pos 1; x = pos x; y = pos y }) values

abbrev mul_values : List (ℕ × ℕ)
mul_values =
    (0x00000000, 0x00000000)
    ∷ (0x00000000, 0x00000001)
    ∷ (0x00000001, 0x00000001)
    ∷ (0x00000001, 0xFFFFFFFF)
    ∷ (0xFFFFFFFF, 0xFFFFFFFF)
    ∷ (0x80000000, 0x00000001)
    ∷ (0x00000001, 0x80000000)
    ∷ (0x80000000, 0xFFFFFFFF)
    ∷ (0xFFFFFFFF, 0x80000000)
    ∷ (0x80000000, 0x00000002)
    ∷ (0x7FFFFFFF, 0x7FFFFFFF)
    ∷ (0x80000000, 0x80000000)
    ∷ (0x7FFFFFFF, 0xFFFFFFFF)
    ∷ (0xFFFFFFFF, 0x7FFFFFFF)
    ∷ (0xAAAAAAAA, 0x55555555)
    ∷ (0x55555555, 0xAAAAAAAA)
    ∷ []

abbrev div_values : List (ℕ × ℕ)
div_values =
    (0x00000000, 0x00000000)
    ∷ (0x00000000, 0x00000001)
    ∷ (0x00000001, 0x00000001)
    ∷ (0x00000001, 0x00000002)
    ∷ (0x00000002, 0x00000001)
    ∷ (0x00000007, 0x00000003)
    ∷ (0xFFFFFFFF, 0x00000001)
    ∷ (0xFFFFFFFF, 0xFFFFFFFF)
    ∷ (0x80000000, 0x00000001)
    ∷ (0x80000000, 0x00000002)
    ∷ (0x7FFFFFFF, 0x00000002)
    ∷ (0x7FFFFFFF, 0x7FFFFFFF)
    ∷ (0x80000000, 0xFFFFFFFF)
    ∷ (0xFFFFFFFF, 0x80000000)
    ∷ (0x80000000, 0x80000000)
    ∷ (0xAAAAAAAA, 0x55555555)
    ∷ (0x55555555, 0xAAAAAAAA)
    ∷ (0x12345678, 0x00000100)
    ∷ (0xDEADBEEF, 0x00000007)
    ∷ (0x00000001, 0x80000000)
    ∷ []

unfoldable pub mul_directed_vectors : List Vector
mul_directed_vectors = both_modes mul_values

unfoldable pub div_directed_vectors : List Vector
div_directed_vectors = both_modes div_values

abbrev default_vector_count : ℤ
default_vector_count = pos 4096

module _ (R : Random) where
  open R use {State, seeded, getrandbits}

  -- The generator expression of mul_diff.py: mode, x, y in this order, `n` times.
  unfoldable pub random_vectors : ℕ → State → List Vector
  random_vectors zero s = []
  random_vectors (suc n) s =
      let (mode, s₁) = getrandbits 1 s in
      let (x, s₂) = getrandbits 32 s₁ in
      let (y, s₃) = getrandbits 32 s₂ in
      (record { signed = pos mode; x = pos x; y = pos y }) ∷ random_vectors n s₃

  -- The divisor of vector `index`, drawn only where it is not forced.
  unfoldable pub divisor : ℕ → State → ℕ × State
  divisor index s =
      if index % 257 == 0
      then (0, s)
      else if index % 257 == 1
      then (2 ^ 31, s)
      else getrandbits 32 s

  -- The loop of div_diff.py, from `index` on.
  unfoldable pub random_divisions : ℕ → ℕ → State → List Vector
  random_divisions zero index s = []
  random_divisions (suc n) index s =
      let (mode, s₁) = getrandbits 1 s in
      let (x, s₂) = getrandbits 32 s₁ in
      let (y, s₃) = divisor index s₂ in
      (record { signed = pos mode; x = pos x; y = pos y }) ∷ random_divisions n (suc index) s₃

  -- The vectors, and how many of them are directed. `range(n)` has `pos_part n` rounds.
  unfoldable pub mul_make_vectors : ℤ → ℤ → Result (List Vector × ℕ)
  mul_make_vectors seed random_count = do
    refuse_if (not (ltb_ℤ (pos 0) random_count)) "random vector count must be positive"
    ok (
      mul_directed_vectors ++ random_vectors (pos_part random_count) (seeded seed),
      length mul_directed_vectors,
    )

  unfoldable pub div_make_vectors : ℤ → ℤ → Result (List Vector × ℕ)
  div_make_vectors seed random_count = do
    refuse_if (ltb_ℤ random_count default_vector_count) "vector-count must be >=4096"
    ok (
      div_directed_vectors ++ random_divisions (pos_part random_count) 0 (seeded seed),
      length div_directed_vectors,
    )

-- The format `08x` of a number below 2 ** 32.
abbrev pub hex_digit : ℕ → ℕ
hex_digit d = if ltb d 10 then b'0' + d else b'a' + (d - 10)

unfoldable pub hex_word : ℕ → List ℕ
hex_word n =
    hex_digit (n / 2 ^ 28 % 16)
    ∷ hex_digit (n / 2 ^ 24 % 16)
    ∷ hex_digit (n / 2 ^ 20 % 16)
    ∷ hex_digit (n / 2 ^ 16 % 16)
    ∷ hex_digit (n / 2 ^ 12 % 16)
    ∷ hex_digit (n / 2 ^ 8 % 16)
    ∷ hex_digit (n / 2 ^ 4 % 16)
    ∷ hex_digit (n % 16)
    ∷ []

-- `0 <= n <= MASK32`
abbrev pub is_word : ℤ → Bool
is_word n = not (ltb_ℤ n (pos 0)) && not (ltb_ℤ (pos (word32 - 1)) n)

abbrev pub is_mode : ℤ → Bool
is_mode n = eqb_ℤ n (pos 0) || eqb_ℤ n (pos 1)

unfoldable pub vector_row : Vector → List ℕ
vector_row v =
    (b'0' + pos_part v.signed) ∷ b' ' ∷ (hex_word (pos_part v.x) ++ b' ' ∷ hex_word (pos_part v.y))

-- The loop of `write_vector_file`: the rows, or the refusal of the first vector out of range.
unfoldable pub vector_rows : List Vector → Result (List (List ℕ))
vector_rows [] = ok []
vector_rows (v ∷ vs) = do
  require (is_mode v.signed && is_word v.x && is_word v.y)
      "vector contains a value outside the locked width"
  rows ← vector_rows vs
  ok (vector_row v ∷ rows)

-- `"\n".join(rows) + "\n"`
unfoldable pub terminated_lines : List (List ℕ) → List ℕ
terminated_lines [] = []
terminated_lines (row ∷ rows) = row ++ b'\n' ∷ terminated_lines rows

-- The bytes written and the count returned; `header` is the comment line of the tool.
unfoldable pub write_vector_file : String → List Vector → Result (List ℕ × ℕ)
write_vector_file header vectors = do
  rows ← vector_rows vectors
  refuse_if (length rows == 0) "zero vectors are not allowed"
  ok (terminated_lines (codes header ∷ rows), length rows)

abbrev pub mul_header : String
mul_header = "# mul-diff vectors: signed x y"

abbrev pub div_header : String
div_header = "# div-diff vectors: signed x y; operands are held through complete"
