-- ===== src/Replacement/Content/Forbidden.antt =====
-- What an accepted replacement does not hold: a forbidden system task, wherever it stands.
use nscscc_cpu.Base.{
  ℕ, Bool, true, false, ◌||◌, List, [], ◌∷◌, ◌++◌, text_eq, text_eq-eq, text_elem, any, all, map,
  ◌==◌, Option, some, ◌≡◌, ◌≢◌, refl, sym, subst, arith, inl, inr, Bool-cases,
}
use nscscc_cpu.Result.{ok, require, refuse_if, >>=-returns, refuse_if-ok, require-eq-ok}
use nscscc_cpu.Verilog.Mask.{mask_verilog_comments_and_strings}
use nscscc_cpu.Verilog.Macros.{fold, behind_keyword, referenced_verilog_macros}
use nscscc_cpu.Transcript.Search.{Characters, search_text, ends_word, word_ends}
use nscscc_cpu.Transcript.Simulation.Passed.{search_text-append, behind_keyword-shown}
use nscscc_cpu.Replacement.Patterns.{find_all}
use nscscc_cpu.Replacement.Lint.{validate_generated_lint_annotations}
use nscscc_cpu.Replacement.Content.{
  oracle_tasks, external_tasks, allowed_functions, dollar, system_identifier_at, task_at, has_task,
  local_macro_at, base_macros, check_system_tasks, validate_text, validate_replacement_verilog,
}

any-found :
    (test : List ℕ → Bool) (name : List ℕ) (names : List (List ℕ))
    → text_elem name names ≡ true
    → test name ≡ true
    → any test names ≡ true
any-found test name [] h k = cc
any-found test name (n ∷ names) h k = elim (Bool-cases (text_eq name n)) [
  | inl same ↦ rw (subst (λ m. test m ≡ true) (text_eq-eq name n same) k) refl
  | inr other ↦
      let rest = any-found test name names (rw (other) at h) k in
      let either : (test n || any test names) ≡ true = rw (rest) (ground arith) in either
]

true_not_false : (b : Bool) → b ≡ true → b ≡ false → ⊥
true_not_false b h k = cc

right_of : (a b : Bool) → a ≡ false → (a || b) ≡ true → b ≡ true
right_of a b h k = ground arith

module _ (H : Characters) where
  -- A name of the list, in any case, behind a `$`.
  task_at-shown :
      (names : List (List ℕ)) (shown post : List ℕ)
      → text_elem (map fold shown) names ≡ true
      → ends_word H post ≡ true
      → task_at H names (dollar ∷ (shown ++ post)) ≡ true
  unfolding task_at
  task_at-shown names shown post h e =
      any-found (λ name. word_ends H (behind_keyword name (shown ++ post))) (map fold shown) names h
        (rw (behind_keyword-shown shown post) e)

  -- What the tests of an accepted text's code show.
  pub text_checked :
      (text source : List ℕ) (base : Option (Option (List ℕ))) (u : Unit {0})
      → validate_text H text source base ≡ ok u
      → (has_task H oracle_tasks (mask_verilog_comments_and_strings true text) ≡ false)
        × (has_task H external_tasks (mask_verilog_comments_and_strings true text) ≡ false)
        × (all
              (λ name. text_elem name allowed_functions)
              (find_all system_identifier_at (mask_verilog_comments_and_strings true text))
            ≡ true)
  unfolding validate_text check_system_tasks
  text_checked text source base u h =
      let code = mask_verilog_comments_and_strings true text in
      let (_, _, h1) =
        >>=-returns (refuse_if (any (λ c. c == 0) text) "replacement Verilog contains a NUL byte") _
          h in
      let (_, _, h2) = >>=-returns (validate_generated_lint_annotations H text source) _ h1 in
      let (_, _, h3) =
        >>=-returns
          (refuse_if (search_text (local_macro_at H) code)
            "replacement Verilog contains a local macro or token-paste dependency")
          _ h2 in
      let (known, _, h4) = >>=-returns (base_macros H base) _ h3 in
      let (_, _, h5) =
        >>=-returns
          (require (all (λ name. text_elem name known) (referenced_verilog_macros text))
            "replacement Verilog adds unbound macro dependencies")
          _ h4 in
      let (_, t, _) = >>=-returns (check_system_tasks H code) _ h5 in
      let (_, o, t1) =
        >>=-returns
          (refuse_if (has_task H oracle_tasks code)
            "replacement Verilog uses a forbidden oracle-output or simulation-control system task")
          _ t in
      let (_, x, t2) =
        >>=-returns
          (refuse_if (has_task H external_tasks code)
            "replacement Verilog uses an unbound external system task")
          _ t1 in
      (
        refuse_if-ok (has_task H oracle_tasks code) _ o,
        refuse_if-ok (has_task H external_tasks code) _ x,
        require-eq-ok
            (all (λ name. text_elem name allowed_functions) (find_all system_identifier_at code)) _
            t2,
      )

  has_task-found :
      (names : List (List ℕ)) (code pre shown post : List ℕ)
      → code ≡ pre ++ dollar ∷ (shown ++ post)
      → text_elem (map fold shown) names ≡ true
      → ends_word H post ≡ true
      → has_task H names code ≡ true
  has_task-found names code pre shown post e h w =
      subst (λ c. has_task H names c ≡ true) (sym e)
        (search_text-append (task_at H names) pre (dollar ∷ (shown ++ post))
          (task_at-shown names shown post h w))

  -- A text whose code, with comments and strings masked, has a `$` anywhere, then the name of an oracle's
  -- or of an external task in any letter case, then the end of a word, is not accepted.
  pub task_refused :
      (text source : List ℕ) (base : Option (Option (List ℕ))) (pre shown post : List ℕ)
      → mask_verilog_comments_and_strings true text ≡ pre ++ dollar ∷ (shown ++ post)
      → (text_elem (map fold shown) oracle_tasks || text_elem (map fold shown) external_tasks)
        ≡ true
      → ends_word H post ≡ true
      → validate_replacement_verilog H (some text) source base ≢ ok tt
  unfolding validate_replacement_verilog
  task_refused text source base pre shown post e h w accepted =
      let code = mask_verilog_comments_and_strings true text in
      let (o, x, _) = text_checked text source base tt accepted in
      elim (Bool-cases (text_elem (map fold shown) oracle_tasks)) [
        | inl known ↦
            true_not_false (has_task H oracle_tasks code)
              (has_task-found oracle_tasks code pre shown post e known w) o
        | inr unknown ↦
            true_not_false (has_task H external_tasks code)
              (has_task-found external_tasks code pre shown post e (right_of _ _ unknown h) w) x
      ]
