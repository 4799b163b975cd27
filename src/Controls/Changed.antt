-- ===== src/Controls/Changed.antt =====
-- A negative control is the source with one place changed, and differs from it.
use nscscc_cpu.Base.{
  ℕ, suc, Bool, true, false, not, String, str_eq, List, [], ◌∷◌, ◌++◌, Option, none, some, ◌==◌,
  codes, ==_iff, get_elem?, ◌≡◌, ◌≢◌, refl, arith, ap, sym, ◌∙◌, subst, Bool-cases, Option-cases,
  inl, inr,
}
use nscscc_cpu.Result.{Error, ok, err, ◌>>◌, refuse_if, >>=-returns, require-eq-ok, ok-injective}
use nscscc_cpu.Transcript.Search.{behind}
use nscscc_cpu.Controls.{count_from, replace_first, control, mutate_source}

nothing_behind {ℓ} : {A : Type ℓ} {left : List ℕ} → none ≡ some left → A
nothing_behind h = cc

absurd_count {ℓ} : {A : Type ℓ} {n : ℕ} → 0 ≡ suc n → A
absurd_count h = absurd (omega (arith, h))

count_nothing : (needle : List ℕ) → 0 ≡ count_from needle 0 []
unfolding count_from
count_nothing needle = refl

behind-append : (needle text left : List ℕ) → behind needle text ≡ some left → text ≡ needle ++ left
unfolding behind
behind-append [] text left h = cc
behind-append (k ∷ needle) [] left h = cc
behind-append (k ∷ needle) (c ∷ rest) left h = elim (Bool-cases (c == k)) [
  | inl e ↦
      let same : c ≡ k = (==_iff c k).0 e in
      rw (same) (ap (λ l. k ∷ l) (behind-append needle rest left (rw (e) at h)))
  | inr e ↦ nothing_behind (rw (e) at h)
]

count_step :
    (needle : List ℕ) (c : ℕ) (rest : List ℕ)
    → behind needle (c ∷ rest) ≡ none
    → count_from needle 0 (c ∷ rest) ≡ count_from needle 0 rest
unfolding count_from
count_step needle c rest e = rw (e, count_from) refl

replace_skip :
    (needle replacement : List ℕ) (c : ℕ) (rest : List ℕ)
    → behind needle (c ∷ rest) ≡ none
    → replace_first needle replacement (c ∷ rest) ≡ c ∷ replace_first needle replacement rest
unfolding replace_first
replace_skip needle replacement c rest e = rw (e, replace_first) refl

replace_here :
    (needle replacement : List ℕ) (c : ℕ) (rest left : List ℕ)
    → behind needle (c ∷ rest) ≡ some left
    → replace_first needle replacement (c ∷ rest) ≡ replacement ++ left
unfolding replace_first
replace_here needle replacement c rest left e = rw (e, replace_first) refl

-- Where a text is found, its first occurrence is the one replaced.
replace_found :
    (needle replacement text : List ℕ) (n : ℕ)
    → count_from needle 0 text ≡ suc n
    → (pre post : List ℕ) × (text ≡ pre ++ (needle ++ post))
      × (replace_first needle replacement text ≡ pre ++ (replacement ++ post))
replace_found needle replacement [] n h = absurd_count (count_nothing needle ∙ h)
replace_found needle replacement (c ∷ rest) n h = elim (Option-cases (behind needle (c ∷ rest))) [
  | inl e ↦
      let (pre, post, p, q) =
        replace_found needle replacement rest n (sym (count_step needle c rest e) ∙ h) in
      (
        c ∷ pre,
        post,
        ap (λ l. c ∷ l) p,
        replace_skip needle replacement c rest e ∙ ap (λ l. c ∷ l) q,
      )
  | inr (left, e) ↦ (
    [],
    left,
    behind-append needle (c ∷ rest) left e,
    replace_here needle replacement c rest left e,
  )
]

append-cancel : (pre a b : List ℕ) → pre ++ a ≡ pre ++ b → a ≡ b
append-cancel [] a b h = h
append-cancel (c ∷ pre) a b h = let tails : pre ++ a ≡ pre ++ b = cc in append-cancel pre a b tails

differs_at :
    (i c d : ℕ) (a b : List ℕ)
    → get_elem? a i ≡ some c
    → get_elem? b i ≡ some d
    → (c == d) ≡ false
    → a ≢ b
differs_at i c d a b p q differ h =
    let r : some c ≡ some d = sym p ∙ ap (λ l. get_elem? l i) h ∙ q in
    let same : c ≡ d = cc in grind arith

-- A control is one of those listed.
control_is :
    (a b needle replacement : String) (post : List ℕ)
    → ◌≡◌ {A = Option (String × String)} (some (a, b)) (some (needle, replacement))
    → codes a ++ post ≢ codes b ++ post
    → codes needle ++ post ≢ codes replacement ++ post
control_is a b needle replacement post e h =
    let first : a ≡ needle = cc in
    let second : b ≡ replacement = cc in
    subst (λ r. codes needle ++ post ≢ codes r ++ post) second
      (subst (λ n. codes n ++ post ≢ codes b ++ post) first h)

no_control {ℓ} :
    {A : Type ℓ} {needle replacement : String}
    → ◌≡◌ {A = Option (String × String)} none (some (needle, replacement))
    → A
no_control h = cc

-- No control leaves its anchor as it is.
controls_differ :
    (kind needle replacement : String) (post : List ℕ)
    → control kind ≡ some (needle, replacement)
    → codes needle ++ post ≢ codes replacement ++ post
unfolding control
controls_differ kind needle replacement post e = elim (Bool-cases (str_eq kind "result_bit_flip")) [
  | inl c ↦
      control_is "assign s = TmpS[31:0];" "assign s = TmpS[31:0] ^ 32'h00000001;" needle replacement
        post (rw (c) at e) (differs_at 21 b';' b' ' _ _ refl refl refl)
  | inr c ↦ elim (Bool-cases (str_eq kind "complete_timing")) [
    | inl c' ↦
        control_is "assign complete = (count == 8'hff);" "assign complete = (count == 8'hfe);"
          needle replacement post (rw (c, c') at e) (differs_at 32 b'f' b'e' _ _ refl refl refl)
    | inr c' ↦ elim (Bool-cases (str_eq kind "remainder_capture_bit_flip")) [
      | inl c'' ↦
          control_is "UnsignR <= tmp_r;" "UnsignR <= tmp_r ^ 33'h000000001;" needle replacement post
            (rw (c, c', c'') at e) (differs_at 16 b';' b' ' _ _ refl refl refl)
      | inr c'' ↦ no_control (rw (c, c', c'') at e)
    ]
  ]
]

not_refused {ℓ} : {A : Type ℓ} {e : Error} {changed : List ℕ} → err e ≡ ok changed → A
not_refused h = cc

twice_not : (b : Bool) → not (not b) ≡ true → b ≡ true
twice_not true h = refl
twice_not false h = h

once :
    (n : ℕ) {u : Unit {0}}
    → refuse_if (not (n == 1)) "negative control anchor is not unique" ≡ ok u
    → n ≡ 1
once n h = (==_iff n 1).0 (
    twice_not (n == 1)
      (require-eq-ok (not (not (n == 1))) "negative control anchor is not unique" h))

known_control :
    (kind : String) (payload changed : List ℕ)
    → mutate_source payload kind ≡ ok changed
    → (needle replacement : String) × (control kind ≡ some (needle, replacement))
      × (count_from (codes needle) 0 payload ≡ 1)
      × (replace_first (codes needle) (codes replacement) payload ≡ changed)
unfolding mutate_source
known_control kind payload changed h = elim (Option-cases (control kind)) [
  | inl e ↦ not_refused (rw (e, mutate_source) at h)
  | inr ((needle, replacement), e) ↦
      let h' : (refuse_if (not (count_from (codes needle) 0 payload == 1))
              "negative control anchor is not unique"
            >> ok (replace_first (codes needle) (codes replacement) payload))
          ≡ ok changed =
        rw (e, mutate_source) at h in
      let (_, u, v) =
        >>=-returns
          (refuse_if (not (count_from (codes needle) 0 payload == 1))
            "negative control anchor is not unique")
          _ h' in
      (
        needle,
        replacement,
        e,
        once (count_from (codes needle) 0 payload) u,
        ok-injective (replace_first (codes needle) (codes replacement) payload) changed v,
      )
]

-- A negative control of a known kind is the source with its anchor, which stands in it once,
-- replaced at one place, and it differs from the source.
pub mutate_source-changed :
    (payload : List ℕ) (kind : String) (changed : List ℕ)
    → mutate_source payload kind ≡ ok changed
    → (needle replacement : String) × (pre post : List ℕ) × (control kind
        ≡ some (needle, replacement))
      × (count_from (codes needle) 0 payload ≡ 1)
      × (payload ≡ pre ++ (codes needle ++ post))
      × (changed ≡ pre ++ (codes replacement ++ post))
      × (payload ≢ changed)
mutate_source-changed payload kind changed h =
    let (needle, replacement, e, one, r) = known_control kind payload changed h in
    let (pre, post, p, q) = replace_found (codes needle) (codes replacement) payload 0 one in
    (
      needle,
      replacement,
      pre,
      post,
      e,
      one,
      p,
      sym r ∙ q,
      λ same. controls_differ kind needle replacement post e (
          append-cancel pre (codes needle ++ post) (codes replacement ++ post)
            (sym p ∙ same ∙ sym r ∙ q)),
    )
