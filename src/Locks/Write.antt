-- ===== src/Locks/Write.antt =====
-- `_write_all` of tools/refactor.py: `os.write` until nothing is left. The loop runs on fuel.
pub mod Complete
use nscscc_cpu.Base.{ℕ, zero, suc, List, [], ◌∷◌, ◌++◌, length, take, drop, Option, none, some}

-- What the loop leaves in the file: everything, or what was written before an OSError.
pub data Written {ℓ} (A : Type ℓ) : Type ℓ where
  all_written : List A → Written A
  stopped : List A → Written A
  out_of_fuel : Written A

-- The bytes that a call reports; an OSError and a call that writes nothing end the loop alike.
abbrev pub progress : Option ℕ → ℕ
progress none = 0
progress (some n) = n

-- `os_write call offered` is what the call with that number returns for that many bytes.
unfoldable pub write_all {ℓ} :
    {A : Type ℓ} → (ℕ → ℕ → Option ℕ) → ℕ → ℕ → List A → List A → Written A
write_all os_write fuel call [] content = all_written content
write_all os_write zero call (b ∷ rest) content = out_of_fuel
write_all os_write (suc fuel) call (b ∷ rest) content =
    elim (progress (os_write call (length (b ∷ rest)))) [
      | zero ↦ stopped content
      | suc n ↦ write_all os_write fuel (suc call) (drop n rest) (content ++ b ∷ take n rest)
    ]
