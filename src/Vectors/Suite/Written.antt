-- ===== src/Vectors/Suite/Written.antt =====
-- What the generated suites promise, and the vector file read back.
use nscscc_cpu.Base.{
  ℕ, zero, suc, ◌+◌, ◌-◌, ◌*◌, ◌/◌, ◌%◌, ◌^◌, ◌≤◌, ◌<◌, ◌≡◌, refl, Bool, true, false, ◌&&◌, some,
  List, [], ◌∷◌, ◌++◌, map, length, length-append, ltb, if◌then◌else◌, arith, ℤ, pos, pos_part,
  String, and-true_parts, take, drop, all, all-append, ap, codes, ◌≢◌, get_elem?, ltb_ℤ, ◌∙◌,
}
use nscscc_cpu.Result.{ok, ◌>>=◌, >>=-returns, require-eq-ok, require}
use nscscc_cpu.Vectors.Word.{word32}
use nscscc_cpu.Vectors.Suite.{
  Vector, Random, hex_digit, hex_word, vector_row, vector_rows, write_vector_file, terminated_lines,
  is_word, is_mode, mul_directed_vectors, div_directed_vectors, random_vectors, random_divisions,
  divisor, mul_make_vectors, div_make_vectors, mul_header, div_header,
}

-- The reader of a row, as the drivers' `>> std::hex` reads it.
abbrev unhex : ℕ → ℕ
unhex c = if ltb c b'a' then c - b'0' else c - b'a' + 10

read_hex : ℕ → List ℕ → ℕ
read_hex n [] = n
read_hex n (c ∷ cs) = read_hex (n * 16 + unhex c) cs

unhex-hex_digit : (d : ℕ) → d < 16 → unhex (hex_digit d) ≡ d
unhex-hex_digit d h = ground arith

read_hex-hex_word : (n : ℕ) → n < word32 → read_hex 0 (hex_word n) ≡ n
unfolding read_hex hex_word
read_hex-hex_word n h =
    rw
      (
        unhex-hex_digit (n / 2 ^ 28 % 16) (omega arith),
        unhex-hex_digit (n / 2 ^ 24 % 16) (omega arith),
        unhex-hex_digit (n / 2 ^ 20 % 16) (omega arith),
        unhex-hex_digit (n / 2 ^ 16 % 16) (omega arith),
        unhex-hex_digit (n / 2 ^ 12 % 16) (omega arith),
        unhex-hex_digit (n / 2 ^ 8 % 16) (omega arith),
        unhex-hex_digit (n / 2 ^ 4 % 16) (omega arith),
        unhex-hex_digit (n % 16) (omega arith),
      )
      (omega arith)

abbrev pub in_range : Vector → Bool
in_range v = is_mode v.signed && is_word v.x && is_word v.y

pub read_row : List ℕ → Vector
read_row (m ∷ _ ∷ rest) = record {
  signed = pos (m - b'0');
  x = pos (read_hex 0 (take 8 rest));
  y = pos (read_hex 0 (drop 9 rest));
}
read_row _ = record { signed = pos 0; x = pos 0; y = pos 0 }

word_parts : (z : ℤ) → is_word z ≡ true → (pos (pos_part z) ≡ z) × (pos_part z < word32)
word_parts z h = ground arith

mode_parts : (z : ℤ) → is_mode z ≡ true → (pos (pos_part z) ≡ z)
mode_parts z h = ground arith

take-hex_word : (n : ℕ) (rest : List ℕ) → take 8 (hex_word n ++ rest) ≡ hex_word n
unfolding hex_word
take-hex_word n rest = refl

drop-hex_word : (n c : ℕ) (rest : List ℕ) → drop 9 (hex_word n ++ c ∷ rest) ≡ rest
unfolding hex_word
drop-hex_word n c rest = refl

read_row-vector_row : (v : Vector) → in_range v ≡ true → read_row (vector_row v) ≡ v
unfolding read_row vector_row
read_row-vector_row v h =
    let (m, xy) = and-true_parts (is_mode v.signed) (is_word v.x && is_word v.y) (ground arith) in
    let (x₁, y₁) = and-true_parts (is_word v.x) (is_word v.y) xy in
    let (x₂, x₃) = word_parts v.x x₁ in
    let (y₂, y₃) = word_parts v.y y₁ in
    rw
      (
        take-hex_word (pos_part v.x) (b' ' ∷ hex_word (pos_part v.y)),
        drop-hex_word (pos_part v.x) b' ' (hex_word (pos_part v.y)),
        read_hex-hex_word (pos_part v.x) x₃,
        read_hex-hex_word (pos_part v.y) y₃,
      )
      (ground (arith, mode_parts v.signed))

-- Reading back the rows that were written gives the vectors, in order.
pub vector_rows_read :
    (vectors : List Vector) (rows : List (List ℕ))
    → vector_rows vectors ≡ ok rows
    → map read_row rows ≡ vectors
unfolding vector_rows
vector_rows_read [] rows h = ground arith
vector_rows_read (v ∷ vs) rows h =
    let (_, valid, h₁) = >>=-returns (require (in_range v) _) _ h in
    let (rest, e, last) = >>=-returns (vector_rows vs) _ h₁ in
    let here = read_row-vector_row v (require-eq-ok (in_range v) _ valid) in
    let below = vector_rows_read vs rest e in ground arith

-- Vectors in range are all written.
vector_rows-all :
    (vectors : List Vector)
    → all in_range vectors ≡ true
    → (rows : List (List ℕ)) × (vector_rows vectors ≡ ok rows) × (length rows ≡ length vectors)
unfolding vector_rows
vector_rows-all [] h = ([], refl, refl)
vector_rows-all (v ∷ vs) h =
    let (rows, e, n) = vector_rows-all vs (ground arith) in
    (vector_row v ∷ rows, ground arith, ap suc n)

module _ (R : Random) where
  open R use {State, getrandbits, getrandbits-lt}

  drawn_vector :
      (s t : State) (y : ℕ)
      → y < word32
      → in_range
          (record { signed = pos (getrandbits 1 s).0; x = pos (getrandbits 32 t).0; y = pos y })
        ≡ true
  drawn_vector s t y h = ground (arith, getrandbits-lt 1 s, getrandbits-lt 32 t)

  random_vectors-in_range : (n : ℕ) (s : State) → all in_range (random_vectors R n s) ≡ true
  unfolding random_vectors
  random_vectors-in_range zero s = refl
  random_vectors-in_range (suc n) s =
      let s₁ = (getrandbits 1 s).1 in
      let s₂ = (getrandbits 32 s₁).1 in
      let (y, s₃) = getrandbits 32 s₂ in
      rw (drawn_vector s s₁ y (getrandbits-lt 32 s₂)) (random_vectors-in_range n s₃)

  length-random_vectors : (n : ℕ) (s : State) → length (random_vectors R n s) ≡ n
  unfolding random_vectors
  length-random_vectors zero s = refl
  length-random_vectors (suc n) s = ap suc (length-random_vectors n _)

  divisor-lt : (index : ℕ) (s : State) → (divisor R index s).0 < word32
  unfolding divisor
  divisor-lt index s = ground (arith, getrandbits-lt 32 s)

  random_divisions-in_range :
      (n index : ℕ) (s : State) → all in_range (random_divisions R n index s) ≡ true
  unfolding random_divisions
  random_divisions-in_range zero index s = refl
  random_divisions-in_range (suc n) index s =
      let s₁ = (getrandbits 1 s).1 in
      let s₂ = (getrandbits 32 s₁).1 in
      let (y, s₃) = divisor R index s₂ in
      rw (drawn_vector s s₁ y (divisor-lt index s₂)) (random_divisions-in_range n (suc index) s₃)

  length-random_divisions : (n index : ℕ) (s : State) → length (random_divisions R n index s) ≡ n
  unfolding random_divisions
  length-random_divisions zero index s = refl
  length-random_divisions (suc n) index s = ap suc (length-random_divisions n (suc index) _)

-- A suite that is not empty and whose vectors are in range is written whole.
write_vector_file-all :
    (header : String) (vectors : List Vector)
    → all in_range vectors ≡ true
    → length vectors ≢ 0
    → (content : List ℕ) × (write_vector_file header vectors ≡ ok (content, length vectors))
unfolding write_vector_file
write_vector_file-all header vectors h k =
    let (rows, e, n) = vector_rows-all vectors h in
    (terminated_lines (codes header ∷ rows), rw (e, n) (ground arith))

suite_written :
    (header : String) (directed drawn : List Vector) (n d : ℕ)
    → all in_range directed ≡ true
    → all in_range drawn ≡ true
    → length directed ≡ suc d
    → length drawn ≡ n
    → (content : List ℕ) × (write_vector_file header (directed ++ drawn) ≡ ok (content, suc d + n))
suite_written header directed drawn n d h k e f =
    let total = length-append directed drawn in
    let valid : all in_range (directed ++ drawn) ≡ true =
      all-append in_range directed drawn ∙ rw (h, k) refl in
    let (content, written) = write_vector_file-all header (directed ++ drawn) valid (omega arith) in
    let size : length (directed ++ drawn) ≡ suc d + n = omega arith in (content, rw size at written)

mul_directed-in_range :
    (all in_range mul_directed_vectors ≡ true) × (length mul_directed_vectors ≡ 32)
unfolding mul_directed_vectors
mul_directed-in_range = (refl, refl)

div_directed-in_range :
    (all in_range div_directed_vectors ≡ true) × (length div_directed_vectors ≡ 40)
unfolding div_directed_vectors
div_directed-in_range = (refl, refl)

-- For a positive count the multiplier's suite is made and written whole: 32 directed vectors and
-- as many random ones as were asked for, each within the locked width.
pub mul_suite_written :
    (R : Random) (seed random_count : ℤ)
    → 0 < pos_part random_count
    → (content : List ℕ) × ((mul_make_vectors R seed random_count >>= λ made.
          write_vector_file mul_header made.0)
        ≡ ok (content, 32 + pos_part random_count))
unfolding mul_make_vectors
mul_suite_written R seed random_count h =
    let n = pos_part random_count in
    let (content, written) =
      suite_written mul_header mul_directed_vectors (random_vectors R n (R.seeded seed)) n 31
        mul_directed-in_range.0 (random_vectors-in_range R n (R.seeded seed))
        mul_directed-in_range.1 (length-random_vectors R n (R.seeded seed)) in
    let positive : ltb_ℤ (pos 0) random_count ≡ true = ground arith in
    (content, rw positive written)

-- From the default count on, the divider's suite is made and written whole: 40 directed vectors
-- and as many random ones as were asked for, each within the locked width.
pub div_suite_written :
    (R : Random) (seed random_count : ℤ)
    → 4096 ≤ pos_part random_count
    → (content : List ℕ) × ((div_make_vectors R seed random_count >>= λ made.
          write_vector_file div_header made.0)
        ≡ ok (content, 40 + pos_part random_count))
unfolding div_make_vectors
div_suite_written R seed random_count h =
    let n = pos_part random_count in
    let (content, written) =
      suite_written div_header div_directed_vectors (random_divisions R n 0 (R.seeded seed)) n 39
        div_directed-in_range.0 (random_divisions-in_range R n 0 (R.seeded seed))
        div_directed-in_range.1 (length-random_divisions R n 0 (R.seeded seed)) in
    let enough : ltb_ℤ random_count (pos 4096) ≡ false = ground arith in
    (content, rw enough written)

-- In the divider's suite the divisor is forced by the position: 0 at each 257th vector, 2 ** 31
-- at the one after it.
pub random_divisions_forced :
    (R : Random) (n index j k : ℕ) (s : R.State)
    → j < n
    → (index + j) % 257 ≡ k
    → k < 2
    → (v : Vector) × (get_elem? (random_divisions R n index s) j ≡ some v)
      × (v.y ≡ pos (k * 2 ^ 31))
unfolding random_divisions divisor
random_divisions_forced R zero index j k s h e l = elim h [ ]
random_divisions_forced R (suc n) index zero k s h e l = (_, refl, ground arith)
random_divisions_forced R (suc n) index (suc j) k s h e l =
    let s₁ = (R.getrandbits 1 s).1 in
    let s₂ = (R.getrandbits 32 s₁).1 in
    random_divisions_forced R n (suc index) j k (divisor R index s₂).1 (omega arith) (omega arith) l
