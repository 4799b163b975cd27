-- ===== src/Transcript/Search.antt =====
-- The regular expressions of the log readers, written out as functions on code points.
use nscscc_cpu.Base.{
  ℕ, ◌+◌, ◌*◌, Bool, true, false, not, ◌||◌, ◌&&◌, List, [], ◌∷◌, Option, none, some, ◌==◌,
  if◌then◌else◌, is_space, lstrip, contains,
}
use nscscc_cpu.Verilog.Macros.{behind_keyword, longest}

-- The Unicode database: `\w` without `\b`'s help, and the value of a decimal digit (`\d`).
pub record Characters : Type 0 where
  pub is_word : ℕ → Bool
  pub digit : ℕ → Option ℕ

-- What is left behind a text that the other starts with.
unfoldable pub behind : List ℕ → List ℕ → Option (List ℕ)
behind [] text = some text
behind (k ∷ needle) [] = none
behind (k ∷ needle) (c ∷ rest) = let left = behind needle rest in if c == k then left else none

abbrev pub is_some {ℓ} : {A : Type ℓ} → Option A → Bool
is_some none = false
is_some (some a) = true

-- `re.search(pattern, text) is not None`
unfoldable pub search_text : (List ℕ → Bool) → List ℕ → Bool
search_text pattern_at [] = pattern_at []
search_text pattern_at (c ∷ rest) = pattern_at (c ∷ rest) || search_text pattern_at rest

-- The group of the leftmost match.
unfoldable pub first_match {ℓ} : {A : Type ℓ} → (List ℕ → Option A) → List ℕ → Option A
first_match pattern_at [] = pattern_at []
first_match pattern_at (c ∷ rest) =
    let later = first_match pattern_at rest in
    elim (pattern_at (c ∷ rest)) [ none ↦ later | some a ↦ some a ]

-- A literal pattern under `re.IGNORECASE`; the literal is written in lower case.
abbrev pub matches_folded : List ℕ → List ℕ → Bool
matches_folded literal text = is_some (behind_keyword literal text)

-- `\s+`
abbrev pub after_spaces : List ℕ → Option (List ℕ)
after_spaces [] = none
after_spaces (c ∷ rest) = if is_space c then some (lstrip rest) else none

-- `Using .*NEEDLE`: the dot stops at a newline, which the needle does not hold.
abbrev pub later_in_line : List ℕ → List ℕ → Bool
later_in_line needle text = contains needle (longest (λ c. not (c == 10)) text)

abbrev pub or_none {ℓ κ} : {A : Type ℓ} {B : Type κ} → Option A → (A → Option B) → Option B
or_none none next = none
or_none (some a) next = next a

module _ (H : Characters) where
  -- `int` of the longest run of digits, behind the number read so far.
  unfoldable pub read_digits : ℕ → List ℕ → ℕ
  read_digits n [] = n
  read_digits n (c ∷ rest) = elim (H.digit c) [ none ↦ n | some d ↦ read_digits (n * 10 + d) rest ]

  -- `(\d+)`
  abbrev pub number_at : List ℕ → Option ℕ
  number_at [] = none
  number_at (c ∷ rest) = elim (H.digit c) [ none ↦ none | some d ↦ some (read_digits d rest) ]

  -- `TITLE\s+is\s+(\d+)`
  unfoldable pub count_at : List ℕ → List ℕ → Option ℕ
  count_at title text = or_none (behind title text) (λ a.
      or_none (after_spaces a)
        (λ b. or_none (behind (b'i' ∷ b's' ∷ []) b) (λ c. or_none (after_spaces c) number_at)))

  abbrev pub ends_word : List ℕ → Bool
  ends_word [] = true
  ends_word (c ∷ rest) = not (H.is_word c)

  -- `\b` and a pattern that starts with a word character, searched; the argument says whether the
  -- character before is one.
  unfoldable pub search_at_boundary : (List ℕ → Bool) → Bool → List ℕ → Bool
  search_at_boundary pattern_at before [] = false
  search_at_boundary pattern_at before (c ∷ rest) =
      let later = search_at_boundary pattern_at (H.is_word c) rest in
      (not before && pattern_at (c ∷ rest)) || later

  abbrev pub word_ends : Option (List ℕ) → Bool
  word_ends none = false
  word_ends (some left) = ends_word left

  -- `\bWORD\b` under `re.IGNORECASE`, for a word of letters
  abbrev pub search_word : List ℕ → List ℕ → Bool
  search_word word = search_at_boundary (λ text. word_ends (behind_keyword word text)) false
