-- ===== src/Locks/Write/Complete.antt =====
-- The writing loop ends, with the whole payload or with a part from its start.
use nscscc_cpu.Base.{
  ℕ, zero, suc, ◌≤◌, ◌≡◌, refl, sym, ap, subst, ◌∙◌, ◌⊎◌, inl, inr, List, [], ◌∷◌, ◌++◌, length,
  take, drop, Option, arith,
}
use nscscc_cpu.Locks.Write.{Written, all_written, stopped, progress, write_all}

zero_or_suc : (n : ℕ) → (n ≡ 0) ⊎ ((m : ℕ) × (n ≡ suc m))
zero_or_suc zero = inl refl
zero_or_suc (suc m) = inr (m, refl)

module _ {ℓ} {A : Type ℓ} where
  append_nil : (xs : List A) → xs ++ [] ≡ xs
  append_nil [] = refl
  append_nil (x ∷ xs) = ap (λ ys. x ∷ ys) (append_nil xs)

  append_assoc : (xs ys zs : List A) → (xs ++ ys) ++ zs ≡ xs ++ (ys ++ zs)
  append_assoc [] ys zs = refl
  append_assoc (x ∷ xs) ys zs = ap (λ ws. x ∷ ws) (append_assoc xs ys zs)

  take-drop : (n : ℕ) (xs : List A) → take n xs ++ drop n xs ≡ xs
  take-drop zero xs = refl
  take-drop (suc n) [] = refl
  take-drop (suc n) (x ∷ xs) = ap (λ ys. x ∷ ys) (take-drop n xs)

  length-drop : (n : ℕ) (xs : List A) → length (drop n xs) ≤ length xs
  length-drop zero xs = omega arith
  length-drop (suc n) [] = omega arith
  length-drop (suc n) (x ∷ xs) = omega (arith, length-drop n xs)

  -- How much of the payload is in the file after the loop.
  abbrev pub WroteSome : List A → List A → Written A → Type ℓ
  WroteSome content payload w =
      (w ≡ all_written (content ++ payload))
      ⊎ ((rest : List A) × (done : List A) × (payload ≡ done ++ rest)
          × (w ≡ stopped (content ++ done)))

  wrote_more :
      (content done payload : List A) (w : Written A)
      → WroteSome (content ++ done) payload w
      → WroteSome content (done ++ payload) w
  wrote_more content done payload w (inl e) =
      inl (e ∙ ap all_written (append_assoc content done payload))
  wrote_more content done payload w (inr (rest, more, e, h)) = inr (
    rest,
    done ++ more,
    ap (λ xs. done ++ xs) e ∙ sym (append_assoc done more rest),
    h ∙ ap stopped (append_assoc content done more),
  )

  -- With fuel for each byte the loop ends: everything is written, or an OSError stopped it and the
  -- file holds a part from the start of the payload.
  pub write_all-WroteSome :
      (os_write : ℕ → ℕ → Option ℕ) (fuel call : ℕ) (payload content : List A)
      → length payload ≤ fuel
      → WroteSome content payload (write_all os_write fuel call payload content)
  unfolding write_all
  write_all-WroteSome os_write fuel call [] content h =
      inl (ap all_written (sym (append_nil content)))
  write_all-WroteSome os_write zero call (b ∷ rest) content h = absurd (omega arith)
  write_all-WroteSome os_write (suc fuel) call (b ∷ rest) content h =
      elim (zero_or_suc (progress (os_write call (length (b ∷ rest))))) [
        | inl e ↦
            rw (e, write_all) (inr (b ∷ rest, [], refl, ap stopped (sym (append_nil content))))
        | inr (n, e) ↦
            rw (e, write_all)
              (subst
                (λ payload.
                  WroteSome content payload
                    (write_all os_write fuel (suc call) (drop n rest) (content ++ b ∷ take n rest)))
                (ap (λ xs. b ∷ xs) (take-drop n rest))
                (wrote_more content (b ∷ take n rest) (drop n rest) _ (
                  write_all-WroteSome os_write fuel (suc call) (drop n rest)
                    (content ++ b ∷ take n rest) (omega (arith, length-drop n rest)))))
      ]
