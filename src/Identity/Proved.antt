-- ===== src/Identity/Proved.antt =====
-- What the parser's record of an accepted run proves.
use nscscc_cpu.Base.{
  Bool, true, false, ◌&&◌, ◌||◌, String, str_eq, eq_iff, List, [], ◌∷◌, elem, same_set, is_empty,
  ◌≡◌, ◌⊎◌, inl, inr, arith, ap, ◌∙◌, subst, Bool-cases,
}
use nscscc_cpu.Result.{ok, ◌>>=◌, require, refuse_if, >>=-returns, require-eq-ok, ok-injective}
use nscscc_cpu.Json.{Json, str, obj, Fields, get, keys, is_text, is_true, is_null}
use nscscc_cpu.Contract.Fields.{require_string, require_integer}
use nscscc_cpu.Iteration.Require.{require_object, require_object-eq-ok}
use nscscc_cpu.Contract.Mul.Locked.{require_string-eq-ok}
use nscscc_cpu.Identity.{
  check_markers, are_true, marker_names, check_diagnostics, require_texts, require_booleans,
  validate_parser,
}

-- The status and the diagnostics of a parser's record.
pub Diagnosed : Fields → Type 0
Diagnosed parser =
    ((get "status" parser ≡ str "fail") × (t : String) × (get "first_mismatch" parser ≡ str t))
    ⊎ ((get "status" parser ≡ str "pass") × (is_null (get "first_mismatch" parser) ≡ true))

locked_end : (a b c : Bool) → (a && b && c) ≡ true → b ≡ true
locked_end a b c h = ground arith

check_markers-eq-ok :
    (value : Json) (markers : Fields) → check_markers value ≡ ok markers → value ≡ obj markers
unfolding check_markers
check_markers-eq-ok value markers h =
    let (m, e, h1) = >>=-returns (require_object value) _ h in
    let (_, _, h2) =
      >>=-returns (require (same_set (keys m) marker_names) "parser marker set is incomplete") _
        h1 in
    let (_, _, h3) = >>=-returns (require_booleans m marker_names) _ h2 in
    require_object-eq-ok value m e ∙ ap obj (ok-injective m markers h3)

two_statuses :
    (s : String) → elem s ("pass" ∷ "fail" ∷ []) ≡ true → str_eq s "fail" ≡ false → s ≡ "pass"
two_statuses s h k = (eq_iff s "pass").0 (first_of (str_eq s "pass") (str_eq s "fail") h k)
  where
    first_of : (a b : Bool) → (a || (b || false)) ≡ true → b ≡ false → a ≡ true
    first_of a b h k = ground arith

check_diagnostics-Diagnosed :
    (parser : Fields) (status : String) (failures excerpt : List Json) {u : Unit {0}}
    → get "status" parser ≡ str status
    → elem status ("pass" ∷ "fail" ∷ []) ≡ true
    → check_diagnostics status (get "first_mismatch" parser) failures excerpt ≡ ok u
    → Diagnosed parser
unfolding check_diagnostics Diagnosed
check_diagnostics-Diagnosed parser status failures excerpt e known h =
    elim (Bool-cases (str_eq status "fail")) [
      | inl c ↦
          let h' : (require_string (get "first_mismatch" parser) >>= λ mismatch.
          refuse_if (is_empty failures || is_empty excerpt) "failing parser lacks diagnostics")
              ≡ ok tt =
            rw (c, check_diagnostics) at h in
          let (mismatch, m, _) = >>=-returns (require_string (get "first_mismatch" parser)) _ h' in
          inl (
            e ∙ ap str ((eq_iff status "fail").0 c),
            mismatch,
            require_string-eq-ok (get "first_mismatch" parser) mismatch m,
          )
      | inr c ↦
          let h' : require (is_null (get "first_mismatch" parser))
                "passing parser reports a mismatch"
              ≡ ok tt =
            rw (c, check_diagnostics) at h in
          inr (
            e ∙ ap str (two_statuses status known c),
            require-eq-ok (is_null (get "first_mismatch" parser)) _ h',
          )
    ]

-- A parser's record that validate_parser accepts is an object with status pass and no mismatch or
-- with status fail and a mismatch; it ended by the locked system call, and its markers say that
-- DiffTest was active and that instructions and clocks were counted.
pub validate_parser-Diagnosed :
    (value : Json) (parser : Fields)
    → validate_parser value ≡ ok parser
    → (value ≡ obj parser)
      × Diagnosed parser
      × (is_text "end_by_syscall" (get "termination_mode" parser) ≡ true)
      × (markers : Fields) × (get "markers" parser ≡ obj markers)
      × (are_true "difftest_library_loaded" "difftest_enabled" markers ≡ true)
      × (are_true "nonzero_instructions" "nonzero_clocks" markers ≡ true)
unfolding validate_parser
validate_parser-Diagnosed value parser h =
    let (p, e0, h0) = >>=-returns (require_object value) _ h in
    let (status, e1, h1) = >>=-returns (require_string (get "status" p)) _ h0 in
    let (_, e2, h2) =
      >>=-returns (require (elem status ("pass" ∷ "fail" ∷ [])) "parser has an invalid status") _
        h1 in
    let (_, _, h3) = >>=-returns (require_integer 1 (get "instructions" p)) _ h2 in
    let (_, _, h4) = >>=-returns (require_integer 1 (get "clocks" p)) _ h3 in
    let (failures, _, h5) = >>=-returns (require_texts (get "failures" p)) _ h4 in
    let (excerpt, _, h6) = >>=-returns (require_texts (get "failure_excerpt" p)) _ h5 in
    let (_, e7, h7) =
      >>=-returns (check_diagnostics status (get "first_mismatch" p) failures excerpt) _ h6 in
    let (markers, e8, h8) = >>=-returns (check_markers (get "markers" p)) _ h7 in
    let (_, e9, h9) =
      >>=-returns
        (require
          (is_text "end_by_syscall" (get "termination_expectation" p)
            && is_text "end_by_syscall" (get "termination_mode" p)
            && is_true (get "termination_valid" p))
          "parser does not prove the locked syscall termination path")
        _ h8 in
    let (_, e10, h10) =
      >>=-returns
        (require (are_true "difftest_library_loaded" "difftest_enabled" markers)
          "parser did not observe active DiffTest")
        _ h9 in
    let (_, e11, h11) =
      >>=-returns
        (require (are_true "nonzero_instructions" "nonzero_clocks" markers)
          "parser did not observe nonzero execution")
        _ h10 in
    subst
      (λ r.
        (value ≡ obj r)
        × Diagnosed r
        × (is_text "end_by_syscall" (get "termination_mode" r) ≡ true)
        × (m : Fields) × (get "markers" r ≡ obj m)
        × (are_true "difftest_library_loaded" "difftest_enabled" m ≡ true)
        × (are_true "nonzero_instructions" "nonzero_clocks" m ≡ true))
      (ok-injective p parser h11)
      (
        require_object-eq-ok value p e0,
        check_diagnostics-Diagnosed p status failures excerpt
            (require_string-eq-ok (get "status" p) status e1)
            (require-eq-ok (elem status ("pass" ∷ "fail" ∷ [])) "parser has an invalid status" e2)
            e7,
        locked_end (is_text "end_by_syscall" (get "termination_expectation" p))
            (is_text "end_by_syscall" (get "termination_mode" p))
            (is_true (get "termination_valid" p))
            (require-eq-ok _ "parser does not prove the locked syscall termination path" e9),
        markers,
        check_markers-eq-ok (get "markers" p) markers e8,
        require-eq-ok (are_true "difftest_library_loaded" "difftest_enabled" markers)
            "parser did not observe active DiffTest" e10,
        require-eq-ok (are_true "nonzero_instructions" "nonzero_clocks" markers)
            "parser did not observe nonzero execution" e11,
      )
