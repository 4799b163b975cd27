-- ===== src/Transcript/Simulation/Passed.antt =====
-- A bad text anywhere in a simulation log fails it, and a log that passes has every marker.
use nscscc_cpu.Base.{
  ℕ, zero, suc, Bool, true, false, ◌||◌, ◌&&◌, String, str_eq, str_eq_refl, List, [], ◌∷◌, ◌++◌,
  Option, some, codes, map, is_empty, elem, get_elem?, ◌≡◌, refl, arith, ap, sym, ◌∙◌, Bool-cases,
  inl, inr, subst,
}
use nscscc_cpu.Result.{ok, require, >>=-returns}
use nscscc_cpu.Verilog.Macros.{fold, behind_keyword}
use nscscc_cpu.Transcript.Search.{Characters, is_some, search_text, matches_folded, search_word}
use nscscc_cpu.Transcript.Simulation.{
  Simulation, bad_patterns, is_expectation, bad_texts, as_search, found_names, simulation_of,
  parse_simulation_log,
}

-- A search finds what matches behind any start of the text.
pub search_text-append :
    (pattern_at : List ℕ → Bool) (pre rest : List ℕ)
    → pattern_at rest ≡ true
    → search_text pattern_at (pre ++ rest) ≡ true
unfolding search_text
search_text-append pattern_at [] [] h = h
search_text-append pattern_at [] (c ∷ rest) h = ground arith
search_text-append pattern_at (c ∷ pre) rest h =
    let ih = search_text-append pattern_at pre rest h in ground arith

pub behind_keyword-shown :
    (shown post : List ℕ) → behind_keyword (map fold shown) (shown ++ post) ≡ some post
unfolding behind_keyword
behind_keyword-shown [] post = refl
behind_keyword-shown (c ∷ shown) post = let ih = behind_keyword-shown shown post in ground arith

or_right : (a : Bool) {b : Bool} → b ≡ true → (a || b) ≡ true
or_right a h = ground arith

and_false : (a : Bool) → (a && false) ≡ false
and_false a = ground arith

get-map {ℓ κ} :
    {A : Type ℓ} {B : Type κ} (f : A → B) (xs : List A) (ys : List B) (i : ℕ) (a : A)
    → get_elem? xs i ≡ some a
    → get_elem? (map f xs ++ ys) i ≡ some (f a)
get-map f [] ys i a h = cc
get-map f (x ∷ xs) ys zero a h = cc
get-map f (x ∷ xs) ys (suc i) a h = get-map f xs ys i a h

-- Where a name stands in the list, it is not empty.
elem-is_empty :
    (name : String) (xs ys : List String) → elem name xs ≡ true → is_empty (xs ++ ys) ≡ false
elem-is_empty name [] ys h = cc
elem-is_empty name (x ∷ xs) ys h = refl

elem-append :
    (name : String) (xs ys : List String) → elem name xs ≡ true → elem name (xs ++ ys) ≡ true
elem-append name [] ys h = cc
elem-append name (x ∷ xs) ys h = elim (Bool-cases (str_eq name x)) [
  | inl e ↦ rw (e) refl
  | inr e ↦ let ih = elem-append name xs ys (rw (e) at h) in ground arith
]

module _ (H : Characters) (text : List ℕ) where
  found_names-elem :
      (patterns : List (String × (List ℕ → Bool))) (i : ℕ) (name : String)
      (is_found : List ℕ → Bool)
      → get_elem? patterns i ≡ some (name, is_found)
      → is_found text ≡ true
      → elem name (found_names H patterns text) ≡ true
  unfolding found_names
  found_names-elem [] i name is_found e h = cc
  found_names-elem ((other, test) ∷ patterns) zero name is_found e h =
      let same_test : test ≡ is_found = cc in
      let same_name : other ≡ name = cc in
      let t : test text ≡ true = ap (λ g. g text) same_test ∙ h in
      rw (t, sym same_name, str_eq_refl other) refl
  found_names-elem ((other, test) ∷ patterns) (suc i) name is_found e h =
      let ih = found_names-elem patterns i name is_found e h in
      elim (Bool-cases (test text)) [
        | inl t ↦ rw (t) (ground (arith, or_right (str_eq name other) ih))
        | inr t ↦ rw (t) ih
      ]

  -- A name among those found is a failure, which the simulation does not pass.
  found-fails :
      (expected : Option String) (name : String)
      → elem name (found_names H (bad_patterns H) text) ≡ true
      → ((simulation_of H expected text).passed ≡ false)
        × (elem name (simulation_of H expected text).failures ≡ true)
  unfolding simulation_of
  found-fails expected name h = (
    rw (elem-is_empty name (found_names H (bad_patterns H) text) _ h) (and_false _),
    elem-append name (found_names H (bad_patterns H) text) _ h,
  )

parse-simulation_of :
    (H : Characters) (expected : Option String) (text : List ℕ) {s : Simulation}
    → parse_simulation_log H expected text ≡ ok s
    → simulation_of H expected text ≡ s
unfolding parse_simulation_log
parse-simulation_of H expected text h =
    let (u, _, same) =
      >>=-returns
        (require (is_expectation expected) "unsupported simulation termination expectation") _ h in
    cc

-- Wherever one of the bad texts stands in a log, in any letter case, the simulation does not
-- pass, and the failure has its name.
pub bad_text_fails :
    (H : Characters) (expected : Option String) (i : ℕ) (name literal : String)
    (pre shown post : List ℕ) (s : Simulation)
    → get_elem? bad_texts i ≡ some (name, literal)
    → map fold shown ≡ codes literal
    → parse_simulation_log H expected (pre ++ (shown ++ post)) ≡ ok s
    → (s.passed ≡ false) × (elem name s.failures ≡ true)
unfolding bad_patterns
bad_text_fails H expected i name literal pre shown post s e f h =
    let text = pre ++ (shown ++ post) in
    let matched : matches_folded (codes literal) (shown ++ post) ≡ true =
      subst (λ k. is_some (behind_keyword k (shown ++ post)) ≡ true) f
        (rw (behind_keyword-shown shown post) refl) in
    let named : elem name (found_names H (bad_patterns H) text) ≡ true =
      found_names-elem H text (bad_patterns H) i name (search_text (matches_folded (codes literal)))
        (get-map as_search bad_texts (("abort", search_word H (codes "abort")) ∷ []) i
          (name, literal) e)
        (search_text-append (matches_folded (codes literal)) pre (shown ++ post) matched) in
    subst (λ (r : Simulation). (r.passed ≡ false) × (elem name r.failures ≡ true))
      (parse-simulation_of H expected text h) (found-fails H text expected name named)
