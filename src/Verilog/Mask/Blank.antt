-- ===== src/Verilog/Mask/Blank.antt =====
-- What the masking of Verilog text keeps: its length, and a text that is masked already.
use nscscc_cpu.Base.{ℕ, Bool, List, [], ◌∷◌, ◌≡◌, refl, length, ◌⊎◌, inl, inr}
use nscscc_cpu.Verilog.Mask.{State, Move, one, two, move, mask_from}

pub Move-cases :
    (v : Move)
    → ((x : ℕ) × (next : State) × (v ≡ one x next))
      ⊎ ((x : ℕ) × (y : ℕ) × (next : State) × (v ≡ two x y next))
Move-cases (one x next) = inl (x, next, refl)
Move-cases (two x y next) = inr (x, y, next, refl)

module _ (m : Bool) (state : State) (c d : ℕ) (rest : List ℕ) where
  pub mask_one :
      {x : ℕ} {next : State}
      → move m state c d ≡ one x next
      → mask_from m state (c ∷ d ∷ rest) ≡ x ∷ mask_from m next (d ∷ rest)
  unfolding mask_from
  mask_one h = rw (h, mask_from)

  pub mask_two :
      {x y : ℕ} {next : State}
      → move m state c d ≡ two x y next
      → mask_from m state (c ∷ d ∷ rest) ≡ x ∷ y ∷ mask_from m next rest
  unfolding mask_from
  mask_two h = rw (h, mask_from)

-- The masked text is as long as the text, so that an offset into one is an offset into the other.
pub length-mask :
    (m : Bool) (state : State) (xs : List ℕ) → length (mask_from m state xs) ≡ length xs
unfolding mask_from
length-mask m state [] = refl
length-mask m state (c ∷ []) = refl
length-mask m state (c ∷ d ∷ rest) = elim (Move-cases (move m state c d)) [
  | inl (x, next, e) ↦ rw (mask_one m state c d rest e, length-mask m next (d ∷ rest))
  | inr (x, y, next, e) ↦ rw (mask_two m state c d rest e, length-mask m next rest)
]
