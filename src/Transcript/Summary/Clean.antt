-- ===== src/Transcript/Summary/Clean.antt =====
-- A transcript that passes is clean, and one with a bad text does not pass.
use nscscc_cpu.Base.{
  ℕ, Bool, true, false, not, ◌&&◌, String, List, [], ◌∷◌, ◌++◌, Option, some, codes, strip,
  splitlines, map, all, is_empty, filter_b, get_elem?, ◌≡◌, refl, arith, ap, sym, ◌∙◌, subst,
  Bool-cases, inl, inr, and-true_parts,
}
use nscscc_cpu.Result.{ok, >>=-returns}
use nscscc_cpu.Verilog.Macros.{fold}
use nscscc_cpu.Transcript.Search.{Characters}
use nscscc_cpu.Transcript.Simulation.{Simulation, parse_simulation_log, bad_texts}
use nscscc_cpu.Transcript.Simulation.Passed.{bad_text_fails}
use nscscc_cpu.Transcript.Warnings.{parse_build_errors, is_build_error}
use nscscc_cpu.Transcript.Summary.{
  collect_warnings, Provenance, Summary, expected_termination, summary_of, summarize,
}
use nscscc_cpu.Transcript.Summary.Listed.{
  warned_lines, is_listed, warns_at_all, collect_warnings_complete,
}

none_listed :
    (is_warning : List ℕ → Bool) (lines : List (List ℕ))
    → all (is_listed is_warning []) lines ≡ true
    → all (λ raw. not (is_warning raw)) lines ≡ true
none_listed is_warning [] h = refl
none_listed is_warning (raw ∷ rest) h = let ih = none_listed is_warning rest in ground arith

absurd_pass {ℓ} : {A : Type ℓ} → false ≡ true → A
absurd_pass h = cc

filter_none {ℓ} :
    {A : Type ℓ} (f : A → A) (p : A → Bool) (xs : List A)
    → is_empty (map f (filter_b p xs)) ≡ true
    → all (λ x. not (p x)) xs ≡ true
filter_none f p [] h = refl
filter_none f p (x ∷ xs) h = elim (Bool-cases (p x)) [
  | inl e ↦ absurd_pass (rw (e) at h)
  | inr e ↦ rw (e) (filter_none f p xs (rw (e) at h))
]

empty_eq {ℓ} : {A : Type ℓ} (xs : List A) → is_empty xs ≡ true → xs ≡ []
empty_eq [] h = refl
empty_eq (x ∷ xs) h = cc

summarize-returns :
    (H : Characters) (provenance : Provenance) (case_name : Option String) (text : List ℕ)
    (r : Summary)
    → summarize H provenance case_name text ≡ ok r
    → (s : Simulation) × (parse_simulation_log H (expected_termination case_name) text ≡ ok s)
      × (summary_of H provenance case_name text s ≡ r)
unfolding summarize
summarize-returns H provenance case_name text r h =
    let (s, e, same) =
      >>=-returns (parse_simulation_log H (expected_termination case_name) text) _ h in
    (s, e, cc)

-- A transcript that is summarised as passed is clean: its simulation passed, and none of its
-- lines is a build error, a Verilator warning or a compiler's warning.
pub summarize-clean :
    (H : Characters) (provenance : Provenance) (case_name : Option String) (text : List ℕ)
    (r : Summary)
    → summarize H provenance case_name text ≡ ok r
    → r.passed ≡ true
    → (r.simulation.passed ≡ true)
      × (all (λ raw. not (is_build_error H (strip raw))) (splitlines text) ≡ true)
      × (all (λ raw. not (warns_at_all H raw)) (splitlines text) ≡ true)
unfolding parse_build_errors
summarize-clean H provenance case_name text r h p =
    let (s, e, same) = summarize-returns H provenance case_name text r h in
    let parts : (s.passed
          && is_empty (parse_build_errors H text)
          && is_empty (collect_warnings H text))
        ≡ true =
      ap (λ (t : Summary). t.passed) same ∙ p in
    let (b, b2) = and-true_parts (s.passed && is_empty (parse_build_errors H text)) _ parts in
    let (a, b1) = and-true_parts s.passed _ b in
    (
      ap (λ (t : Summary). t.simulation.passed) (sym same) ∙ a,
      filter_none strip (λ raw. is_build_error H (strip raw)) (splitlines text) b1,
      none_listed (warns_at_all H) (splitlines text) (
          subst (λ ws. all (is_listed (warns_at_all H) (warned_lines ws)) (splitlines text) ≡ true)
            (empty_eq (collect_warnings H text) b2) (collect_warnings_complete H text)),
    )

-- A transcript that holds one of the bad texts anywhere, in any letter case, is not summarised as
-- passed.
pub summarize_bad_text :
    (H : Characters) (provenance : Provenance) (case_name : Option String) (i : ℕ)
    (name literal : String) (pre shown post : List ℕ) (r : Summary)
    → get_elem? bad_texts i ≡ some (name, literal)
    → map fold shown ≡ codes literal
    → summarize H provenance case_name (pre ++ (shown ++ post)) ≡ ok r
    → r.passed ≡ false
summarize_bad_text H provenance case_name i name literal pre shown post r e f h =
    let (s, q, same) = summarize-returns H provenance case_name (pre ++ (shown ++ post)) r h in
    let (stopped, _) =
      bad_text_fails H (expected_termination case_name) i name literal pre shown post s e f q in
    ap (λ (t : Summary). t.passed) (sym same) ∙ rw (stopped) refl
