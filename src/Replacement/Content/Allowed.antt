-- ===== src/Replacement/Content/Allowed.antt =====
-- The system functions of an accepted replacement: each one of its code is on the list of those allowed.
use nscscc_cpu.Base.{
  ℕ, zero, suc, ◌-◌, Bool, true, false, ◌&&◌, ◌||◌, List, [], ◌∷◌, ◌++◌, text_eq, text_eq-eq,
  text_eq_refl, text_elem, all, length, ◌==◌, Option, none, some, ◌≡◌, refl, sym, subst, arith, inl,
  inr, Bool-cases, Option-cases, and-true_parts,
}
use nscscc_cpu.Result.{ok}
use nscscc_cpu.Verilog.Mask.{mask_verilog_comments_and_strings}
use nscscc_cpu.Verilog.Macros.{longest, is_letter, is_name_character, name_at}
use nscscc_cpu.Transcript.Search.{Characters, or_none}
use nscscc_cpu.Replacement.Patterns.{find_from, find_all}
use nscscc_cpu.Replacement.Content.{
  allowed_functions, dollar, system_identifier_at, validate_replacement_verilog,
}
use nscscc_cpu.Replacement.Content.Forbidden.{text_checked}

-- The last character of the text passes the test.
abbrev pub ends_in : (ℕ → Bool) → List ℕ → Bool
ends_in test [] = false
ends_in test (c ∷ []) = test c
ends_in test (c ∷ d ∷ text) = ends_in test (d ∷ text)

-- The text has that many characters at least, and the first of them pass the test.
abbrev begins_in : (ℕ → Bool) → ℕ → List ℕ → Bool
begins_in test zero text = true
begins_in test (suc n) [] = false
begins_in test (suc n) (c ∷ text) = test c && begins_in test n text

ends_in-tail :
    (test : ℕ → Bool) (c : ℕ) (text : List ℕ)
    → ends_in test (c ∷ text) ≡ false
    → ends_in test text ≡ false
ends_in-tail test c [] h = refl
ends_in-tail test c (d ∷ text) h = h

-- A run that begins in a text whose last character is in no run ends in that text.
longest-begins_in :
    (test : ℕ → Bool) (c : ℕ) (pre post : List ℕ)
    → ends_in test (c ∷ pre) ≡ false
    → begins_in test (length (longest test (c ∷ (pre ++ post)))) (c ∷ pre) ≡ true
unfolding longest
longest-begins_in test c [] post h = rw (h) refl
longest-begins_in test c (d ∷ pre) post h =
    let ih = longest-begins_in test d pre post h in
    elim (Bool-cases (test c)) [ inl e ↦ rw (e) (rw (e) ih) | inr e ↦ rw (e) refl ]

absurd_some {ℓ} : {P : Type ℓ} (shown : List ℕ) → none ≡ some shown → P
absurd_some shown h = cc

absurd_true {ℓ} : {P : Type ℓ} (b : Bool) → b ≡ true → b ≡ false → P
absurd_true b h k = cc

or_true : (b : Bool) → (b || true) ≡ true
or_true true = refl
or_true false = refl

dollar_is_of_names : (d : ℕ) → (d == dollar) ≡ true → is_name_character d ≡ true
dollar_is_of_names d h = ground arith

letter_is_of_names : (d : ℕ) → is_letter d ≡ true → is_name_character d ≡ true
letter_is_of_names d h = rw (h) refl

taken_length :
    (run shown : List ℕ) → some (dollar ∷ run) ≡ some shown → (length shown - 1) ≡ length run
taken_length run shown h = let e : shown ≡ dollar ∷ run = cc in rw (e) (omega arith)

-- A match is of `$` and of the characters of names behind it.
name_taken :
    (text shown : List ℕ)
    → or_none (name_at is_letter is_name_character text) (λ name. some (dollar ∷ name)) ≡ some shown
    → (length shown - 1) ≡ length (longest is_name_character text)
unfolding name_at longest
name_taken [] shown h = cc
name_taken (c ∷ text) shown h = elim (Bool-cases (is_letter c)) [
  | inl e ↦ rw (letter_is_of_names c e) (taken_length _ shown (rw (e) at h))
  | inr e ↦ absurd_some shown (rw (e) at h)
]

match_taken :
    (d : ℕ) (text shown : List ℕ)
    → system_identifier_at (d ∷ text) ≡ some shown
    → ((d == dollar) ≡ true) × ((length shown - 1) ≡ length (longest is_name_character text))
unfolding system_identifier_at
match_taken d text shown h = elim (Bool-cases (d == dollar)) [
  | inl e ↦ (e, name_taken text shown (rw (e) at h))
  | inr e ↦ absurd_some shown (rw (e) at h)
]

-- The characters that a match takes up end before a text that begins in no run of names.
match_ends :
    (d : ℕ) (pre post shown : List ℕ)
    → ends_in is_name_character (d ∷ pre) ≡ false
    → system_identifier_at (d ∷ (pre ++ post)) ≡ some shown
    → begins_in is_name_character (length shown - 1) pre ≡ true
match_ends d [] post shown e h =
    let (a, b) = match_taken d post shown h in
    absurd_true (is_name_character d) (dollar_is_of_names d a) e
match_ends d (p ∷ pre) post shown e h =
    let (a, b) = match_taken d (p ∷ (pre ++ post)) shown h in
    rw (b) (longest-begins_in is_name_character p pre post e)

elem-all :
    (test : List ℕ → Bool) (name : List ℕ) (names : List (List ℕ))
    → text_elem name names ≡ true
    → all test names ≡ true
    → test name ≡ true
elem-all test name [] h k = cc
elem-all test name (n ∷ names) h k = elim (Bool-cases (text_eq name n)) [
  | inl same ↦ rw (text_eq-eq name n same) (and-true_parts (test n) (all test names) k).0
  | inr other ↦
      elem-all test name names (rw (other) at h) (and-true_parts (test n) (all test names) k).1
]

-- The list of the identifiers of a text holds one that begins behind a text.
module _ (c : ℕ) (rest : List ℕ) where
  abbrev pub identifier : List ℕ
  identifier = dollar ∷ c ∷ longest is_name_character rest

  found_at_start : is_letter c ≡ true → system_identifier_at (dollar ∷ c ∷ rest) ≡ some identifier
  unfolding system_identifier_at name_at
  found_at_start h = rw (h) refl

  held :
      (n : ℕ) (pre : List ℕ)
      → is_letter c ≡ true
      → ends_in is_name_character pre ≡ false
      → begins_in is_name_character n pre ≡ true
      → text_elem identifier (find_from system_identifier_at n (pre ++ dollar ∷ c ∷ rest)) ≡ true
  unfolding find_from
  held zero [] h e b = rw (found_at_start h, find_from) (rw (text_eq_refl identifier) refl)
  held zero (d ∷ pre) h e b =
      elim (Option-cases (system_identifier_at (d ∷ (pre ++ dollar ∷ c ∷ rest)))) [
        | inl none_here ↦
            rw (none_here, find_from)
              (held zero pre h (ends_in-tail is_name_character d pre e) refl)
        | inr (shown, here) ↦
            let ih =
              held (length shown - 1) pre h (ends_in-tail is_name_character d pre e)
                (match_ends d pre (dollar ∷ c ∷ rest) shown e here) in
            rw (here, find_from) (rw (ih) (or_true (text_eq identifier shown)))
      ]
  held (suc n) [] h e b = cc
  held (suc n) (d ∷ pre) h e b =
      let (p, q) = and-true_parts (is_name_character d) (begins_in is_name_character n pre) b in
      held n pre h (ends_in-tail is_name_character d pre e) q

-- In a replacement that is accepted, wherever a `$` that is in no name before it begins a system
-- identifier of the code, with comments and strings masked, the whole of the identifier is one of
-- the side-effect free functions that are allowed.
pub validate_replacement_verilog-allowed :
    (H : Characters) (text source : List ℕ) (base : Option (Option (List ℕ))) (pre : List ℕ) (c : ℕ)
    (rest : List ℕ)
    → validate_replacement_verilog H (some text) source base ≡ ok tt
    → mask_verilog_comments_and_strings true text ≡ pre ++ dollar ∷ c ∷ rest
    → ends_in is_name_character pre ≡ false
    → is_letter c ≡ true
    → text_elem (dollar ∷ c ∷ longest is_name_character rest) allowed_functions ≡ true
unfolding validate_replacement_verilog
validate_replacement_verilog-allowed H text source base pre c rest h m e l =
    let (_, _, allowed) = text_checked H text source base tt h in
    elem-all (λ name. text_elem name allowed_functions) (identifier c rest)
      (find_all system_identifier_at (mask_verilog_comments_and_strings true text))
      (subst (λ code. text_elem (identifier c rest) (find_all system_identifier_at code) ≡ true)
        (sym m) (held c rest zero pre l e refl))
      allowed
