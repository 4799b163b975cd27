-- ===== src/Verilog/Mask/Again.antt =====
-- Masking a text that is masked already.
use nscscc_cpu.Base.{
  ℕ, Bool, true, false, ◌&&◌, List, [], ◌∷◌, ◌==◌, if◌then◌else◌, ◌≡◌, refl, ◌⊎◌, inl, inr,
  Bool-cases, arith, ap, subst,
}
use nscscc_cpu.Verilog.Mask.{
  State, code, line_comment, block_comment, string, one, two, move, last_character, mask_from,
  keep_newline, hide, newline, blank, quote, star, slash, backslash,
  mask_verilog_comments_and_strings,
}
use nscscc_cpu.Verilog.Mask.Blank.{Move-cases, mask_one, mask_two}

-- The state of the masked text where the source is in the state.
abbrev again : Bool → State → State
again m code = code
again m line_comment = code
again m block_comment = code
again true string = code
again false string = string

move_blank : (m : Bool) (c e : ℕ) → move m code (keep_newline c) e ≡ one (keep_newline c) code
unfolding move
move_blank m c e = ground arith

mask_blank :
    (m : Bool) (c : ℕ) (ys : List ℕ)
    → mask_from m code (keep_newline c ∷ ys) ≡ keep_newline c ∷ mask_from m code ys
unfolding mask_from last_character
mask_blank m c [] = ground arith
mask_blank m c (e ∷ ys) = mask_one m code _ e ys (move_blank m c e)

mask_space : (m : Bool) (ys : List ℕ) → mask_from m code (blank ∷ ys) ≡ blank ∷ mask_from m code ys
mask_space m ys = mask_blank m blank ys

last_shown : (m : Bool) (d : ℕ) → (last_character m code d ≡ d) ⊎ (last_character m code d ≡ blank)
unfolding last_character
last_shown true d = ground arith
last_shown false d = ground arith

one_shown :
    (m : Bool) (d e : ℕ) {x : ℕ} {next : State}
    → move m code d e ≡ one x next
    → (x ≡ d) ⊎ (x ≡ blank)
unfolding move
one_shown true d e q = ground arith
one_shown false d e q = ground arith

two_shown :
    (m : Bool) (d e : ℕ) {x y : ℕ} {next : State}
    → move m code d e ≡ two x y next
    → (x ≡ d) ⊎ (x ≡ blank)
unfolding move
two_shown true d e q = ground arith
two_shown false d e q = ground arith

-- The masked text starts with the character of the text, or with a blank.
mask_head :
    (m : Bool) (d : ℕ) (rest : List ℕ)
    → (e : ℕ) × (ys : List ℕ) × (mask_from m code (d ∷ rest) ≡ e ∷ ys) × ((e ≡ d) ⊎ (e ≡ blank))
unfolding mask_from
mask_head m d [] = (_, [], refl, last_shown m d)
mask_head m d (e ∷ rest) = elim (Move-cases (move m code d e)) [
  | inl (x, next, q) ↦
      (x, mask_from m next (e ∷ rest), mask_one m code d e rest q, one_shown m d e q)
  | inr (x, y, next, q) ↦
      (x, y ∷ mask_from m next rest, mask_two m code d e rest q, two_shown m d e q)
]

-- A character of code that opens nothing opens nothing before the masked text.
move_again :
    (m : Bool) (c d e : ℕ)
    → (c == quote) ≡ false
    → (c == slash && d == slash) ≡ false
    → (c == slash && d == star) ≡ false
    → (e ≡ d) ⊎ (e ≡ blank)
    → move m code c e ≡ one c code
unfolding move
move_again m c d e q p r h = ground arith

opens_quoted : (m : Bool) (c e : ℕ) → (c == quote) ≡ true → move m code c e ≡ one (hide m c) string
unfolding move
opens_quoted m c e h = ground arith

mask_kept :
    (m : Bool) (c d : ℕ) (rest : List ℕ)
    → (c == quote) ≡ false
    → (c == slash && d == slash) ≡ false
    → (c == slash && d == star) ≡ false
    → mask_from m code (c ∷ mask_from m code (d ∷ rest))
      ≡ c ∷ mask_from m code (mask_from m code (d ∷ rest))
mask_kept m c d rest q p r =
    let (e, ys, h, shown) = mask_head m d rest in
    rw (h) (mask_one m code c e ys (move_again m c d e q p r shown))

mask_quote :
    (m : Bool) (c : ℕ) (zs : List ℕ)
    → (c == quote) ≡ true
    → mask_from m code (hide m c ∷ zs) ≡ hide m c ∷ mask_from m (again m string) zs
unfolding mask_from last_character
mask_quote true c zs h = mask_space true zs
mask_quote false c [] h = ground arith
mask_quote false c (e ∷ zs) h = mask_one false code c e zs (opens_quoted false c e h)

-- The last character of a masked text is masked.
last_again :
    (m : Bool) (state : State) (c : ℕ)
    → last_character m (again m state) (last_character m state c) ≡ last_character m state c
unfolding last_character
last_again true code c = ground arith
last_again false code c = ground arith
last_again m line_comment c = ground arith
last_again m block_comment c = ground arith
last_again true string c = refl
last_again false string c = refl

module _ (m : Bool) (c d : ℕ) where
  opens_line : (c == slash && d == slash) ≡ true → move m code c d ≡ two blank blank line_comment
  unfolding move
  opens_line h = ground arith

  opens_block :
      (c == slash && d == slash) ≡ false
      → (c == slash && d == star) ≡ true
      → move m code c d ≡ two blank blank block_comment
  unfolding move
  opens_block p h = ground arith

  opens_string :
      (c == slash && d == slash) ≡ false
      → (c == slash && d == star) ≡ false
      → (c == quote) ≡ true
      → move m code c d ≡ one (hide m c) string
  unfolding move
  opens_string p q h = ground arith

  stays_code :
      (c == slash && d == slash) ≡ false
      → (c == slash && d == star) ≡ false
      → (c == quote) ≡ false
      → move m code c d ≡ one c code
  unfolding move
  stays_code p q h = ground arith

  closes_block : (c == star && d == slash) ≡ true → move m block_comment c d ≡ two blank blank code
  unfolding move
  closes_block h = ground arith

  stays_block :
      (c == star && d == slash) ≡ false
      → move m block_comment c d ≡ one (keep_newline c) block_comment
  unfolding move
  stays_block h = ground arith

  escapes : (c == backslash) ≡ true → move m string c d ≡ two (hide m c) (hide m d) string
  unfolding move
  escapes h = ground arith

  stays_string :
      (c == backslash) ≡ false
      → move m string c d ≡ one (hide m c) (if c == quote then code else string)
  unfolding move
  stays_string h = ground arith

line_move :
    (m : Bool) (c d : ℕ)
    → move m line_comment c d ≡ one (keep_newline c) (if c == newline then code else line_comment)
unfolding move
line_move m c d = refl

same_state :
    (m : Bool) (ys : List ℕ) {s t : State} → s ≡ t → mask_from m s ys ≡ ys → mask_from m t ys ≡ ys
same_state m ys e h = subst (λ s. mask_from m s ys ≡ ys) e h

comment_again : (m b : Bool) → again m (if b then code else line_comment) ≡ code
comment_again m true = refl
comment_again m false = refl

string_again : (b : Bool) → again true (if b then code else string) ≡ code
string_again true = refl
string_again false = refl

kept_again : (b : Bool) → again false (if b then code else string) ≡ (if b then code else string)
kept_again true = refl
kept_again false = refl

mask_string :
    (c : ℕ) (zs : List ℕ)
    → (c == backslash) ≡ false
    → mask_from false string (c ∷ zs) ≡ c ∷ mask_from false (if c == quote then code else string) zs
unfolding mask_from last_character
mask_string c [] h = refl
mask_string c (e ∷ zs) h = mask_one false string c e zs (stays_string false c e h)

-- From each state that the loop passes, the masked rest is a text that masking leaves alone.
pub mask_from-again :
    (m : Bool) (state : State) (xs : List ℕ)
    → mask_from m (again m state) (mask_from m state xs) ≡ mask_from m state xs
unfolding mask_from
mask_from-again m state [] = refl
mask_from-again m state (c ∷ []) = ap (λ x. x ∷ []) (last_again m state c)
mask_from-again m code (c ∷ d ∷ rest) = elim (Bool-cases (c == slash && d == slash)) [
  | inl h ↦
      rw (mask_two m code c d rest (opens_line m c d h), mask_space m _, mask_space m _)
        (ap (λ ys. blank ∷ blank ∷ ys) (mask_from-again m line_comment rest))
  | inr p ↦ elim (Bool-cases (c == slash && d == star)) [
    | inl h ↦
        rw (mask_two m code c d rest (opens_block m c d p h), mask_space m _, mask_space m _)
          (ap (λ ys. blank ∷ blank ∷ ys) (mask_from-again m block_comment rest))
    | inr q ↦ elim (Bool-cases (c == quote)) [
      | inl h ↦
          rw (mask_one m code c d rest (opens_string m c d p q h), mask_quote m c _ h)
            (ap (λ ys. hide m c ∷ ys) (mask_from-again m string (d ∷ rest)))
      | inr r ↦
          rw (mask_one m code c d rest (stays_code m c d p q r), mask_kept m c d rest r p q)
            (ap (λ ys. c ∷ ys) (mask_from-again m code (d ∷ rest)))
    ]
  ]
]
mask_from-again m line_comment (c ∷ d ∷ rest) =
    rw (mask_one m line_comment c d rest (line_move m c d), mask_blank m c _)
      (ap (λ ys. keep_newline c ∷ ys)
        (same_state m (mask_from m (if c == newline then code else line_comment) (d ∷ rest))
          (comment_again m (c == newline))
          (mask_from-again m (if c == newline then code else line_comment) (d ∷ rest))))
mask_from-again m block_comment (c ∷ d ∷ rest) = elim (Bool-cases (c == star && d == slash)) [
  | inl h ↦
      rw (mask_two m block_comment c d rest (closes_block m c d h), mask_space m _, mask_space m _)
        (ap (λ ys. blank ∷ blank ∷ ys) (mask_from-again m code rest))
  | inr h ↦
      rw (mask_one m block_comment c d rest (stays_block m c d h), mask_blank m c _)
        (ap (λ ys. keep_newline c ∷ ys) (mask_from-again m block_comment (d ∷ rest)))
]
mask_from-again true string (c ∷ d ∷ rest) = elim (Bool-cases (c == backslash)) [
  | inl h ↦
      rw (mask_two true string c d rest (escapes true c d h), mask_space true _, mask_space true _)
        (ap (λ ys. blank ∷ blank ∷ ys) (mask_from-again true string rest))
  | inr h ↦
      rw (mask_one true string c d rest (stays_string true c d h), mask_space true _)
        (ap (λ ys. blank ∷ ys)
          (same_state true (mask_from true (if c == quote then code else string) (d ∷ rest))
            (string_again (c == quote))
            (mask_from-again true (if c == quote then code else string) (d ∷ rest))))
]
mask_from-again false string (c ∷ d ∷ rest) = elim (Bool-cases (c == backslash)) [
  | inl h ↦
      rw
        (
          mask_two false string c d rest (escapes false c d h),
          mask_two false string c d _ (escapes false c d h),
        )
        (ap (λ ys. c ∷ d ∷ ys) (mask_from-again false string rest))
  | inr h ↦
      rw (mask_one false string c d rest (stays_string false c d h), mask_string c _ h)
        (ap (λ ys. c ∷ ys)
          (same_state false (mask_from false (if c == quote then code else string) (d ∷ rest))
            (kept_again (c == quote))
            (mask_from-again false (if c == quote then code else string) (d ∷ rest))))
]

-- A masked text holds no comment any more, and no string where strings are masked: masking it
-- again changes nothing.
pub mask_again :
    (m : Bool) (text : List ℕ)
    → mask_verilog_comments_and_strings m (mask_verilog_comments_and_strings m text)
      ≡ mask_verilog_comments_and_strings m text
mask_again m text = mask_from-again m code text
