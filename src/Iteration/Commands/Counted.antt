-- ===== src/Iteration/Commands/Counted.antt =====
-- What `_validate_commands` guarantees of commands.jsonl.
use nscscc_cpu.Base.{
  ℕ, suc, ◌<◌, ◌≡◌, ◌∙◌, sym, ap, true, not, List, [], ◌∷◌, has_ink, filter_b, length, Bool-cases,
  inl, inr, arith, ◌==◌, some,
}
use nscscc_cpu.Result.{ok, >>=-returns, require, require-eq-ok, ok-injective}
use nscscc_cpu.Json.{Json}
use nscscc_cpu.Iteration.Host.{Host}
use nscscc_cpu.Iteration.Commands.{validate_record, parse_record, count_records, validate_commands}

module _ (H : Host) where
  -- Each line that is not blank holds a JSON value that passes the checks of one record.
  abbrev pub AllRecords : List (List ℕ) → Type 0
  AllRecords [] = Unit
  AllRecords (line ∷ lines) =
      (has_ink line ≡ true
        → (value : Json) × (H.json_loads line ≡ some value) × (validate_record H value ≡ ok tt))
      × AllRecords lines

  parse_record-eq-ok :
      (line : List ℕ) (value : Json)
      → parse_record H line ≡ ok value
      → H.json_loads line ≡ some value
  unfolding parse_record
  parse_record-eq-ok line value h = ground arith

  count_records-AllRecords :
      (lines : List (List ℕ)) (n : ℕ)
      → count_records H lines ≡ ok n
      → (n ≡ length (filter_b has_ink lines)) × AllRecords lines
  unfolding count_records
  count_records-AllRecords [] n h = (ground arith, tt)
  count_records-AllRecords (line ∷ lines) n h = elim (Bool-cases (has_ink line)) [
    | inl ink ↦
        let (value, e₁, h₁) = >>=-returns (parse_record H line) _ (rw ink at h) in
        let (_, e₂, h₂) = >>=-returns (validate_record H value) _ h₁ in
        let (m, e₃, h₃) = >>=-returns (count_records H lines) _ h₂ in
        let (count, below) = count_records-AllRecords lines m e₃ in
        (
          rw ink (sym (ok-injective _ _ h₃) ∙ ap suc count),
          (λ _. (value, parse_record-eq-ok line value e₁, e₂), below),
        )
    | inr blank ↦
        let (count, below) = count_records-AllRecords lines n (rw blank at h) in
        (rw blank count, (λ ink. absurd (cc (ink, blank)), below))
  ]

  -- When commands.jsonl is accepted, the count returned is the number of its lines that are not
  -- blank, there is at least one, and each of them is a record that passes every check.
  pub validate_commands-AllRecords :
      (lines : List (List ℕ)) (n : ℕ)
      → validate_commands H lines ≡ ok n
      → (n ≡ length (filter_b has_ink lines)) × (0 < n) × AllRecords lines
  unfolding validate_commands
  validate_commands-AllRecords lines n h =
      let (m, e₁, h₁) = >>=-returns (count_records H lines) _ h in
      let (_, e₂, h₂) = >>=-returns (require (not (m == 0)) _) _ h₁ in
      let (count, all_records) = count_records-AllRecords lines m e₁ in
      let same = ok-injective _ _ h₂ in
      let nonzero = require-eq-ok _ _ e₂ in (sym same ∙ count, ground arith, all_records)
