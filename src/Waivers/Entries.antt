-- ===== src/Waivers/Entries.antt =====
-- What the registry's entries say once the expected waivers are accepted.
use nscscc_cpu.Base.{
  Bool, true, false, not, ◌&&◌, ◌||◌, String, str_eq, eq_iff, List, [], ◌∷◌, some, elem, any, all,
  and-true_both, ◌≡◌, refl, arith, ap, sym, ◌∙◌, subst, Bool-cases, inl, inr, and-true_parts,
}
use nscscc_cpu.Result.{ok, require, >>=-returns, require-eq-ok, ok-injective}
use nscscc_cpu.Json.{Json, Fields, get, is_text, py_eq}
use nscscc_cpu.Waivers.{
  Waiver, expected_ids, locked_fields, is_ink, Registry, find, is_scoped, check_locked, registered,
  accept_waiver, accept_waivers,
}
use nscscc_cpu.Waivers.Registered.{on_entry, entry_holds, is_consistent}

-- The waiver stands in the registry with its locked values, a reason and an expiry condition.
abbrev pub binds : Waiver → Fields → Bool
binds w item =
    is_text w.waiver_id (get "id" item)
    && all (λ (l : String × Json). py_eq (get l.0 item) l.1) (locked_fields w)
    && is_ink (get "reason" item)
    && is_ink (get "expires_when" item)

-- A waiver of the golden scope that is not expected.
abbrev pub is_stray : Fields → Bool
is_stray item = is_scoped item && not (any (λ k. is_text k (get "id" item)) expected_ids)

check_locked-all :
    (item : Fields) (fields : List (String × Json)) {u : Unit {0}}
    → check_locked item fields ≡ ok u
    → all (λ (l : String × Json). py_eq (get l.0 item) l.1) fields ≡ true
unfolding check_locked
check_locked-all item [] h = refl
check_locked-all item ((key, value) ∷ rest) h =
    let (_, e, h') =
      >>=-returns (require (py_eq (get key item) value) "golden div waiver drifted") _ h in
    and-true_both (py_eq (get key item) value) _ (require-eq-ok (py_eq (get key item) value) _ e)
      (check_locked-all item rest h')

or_true : (a : Bool) → (a || true) ≡ true
or_true a = ground arith

and_shift : (a b c d : Bool) → a ≡ true → (b && c && d) ≡ true → (a && b && c && d) ≡ true
and_shift a b c d h k = ground arith

find-any :
    (k : String) (xs : List (String × Fields)) (item : Fields) (p : Fields → Bool)
    → find k xs ≡ some item
    → p item ≡ true
    → any (on_entry p) xs ≡ true
unfolding find
find-any k [] item p e h = cc
find-any k ((j, other) ∷ xs) item p e h = elim (Bool-cases (str_eq j k)) [
  | inl c ↦
      let first : some other ≡ some item = rw (c) at e in
      let same : other ≡ item = cc in rw (same, h) refl
  | inr c ↦ rw (find-any k xs item p (rw (c) at e) h) (or_true (p other))
]

find-id :
    (scoped : List String) (k : String) (xs : List (String × Fields)) (item : Fields)
    → all (entry_holds scoped) xs ≡ true
    → find k xs ≡ some item
    → is_text k (get "id" item) ≡ true
unfolding find
find-id scoped k [] item a e = cc
find-id scoped k ((j, other) ∷ xs) item a e =
    let (here, later) =
      and-true_parts (entry_holds scoped (j, other)) (all (entry_holds scoped) xs) a in
    elim (Bool-cases (str_eq j k)) [
      | inl c ↦
          let first : some other ≡ some item = rw (c) at e in
          let same : other ≡ item = cc in
          let (own, _) = and-true_parts (is_text j (get "id" other)) _ here in
          subst (λ i. is_text k (get "id" i) ≡ true) same
            (subst (λ n. is_text n (get "id" other) ≡ true) ((eq_iff j k).0 c) own)
      | inr c ↦ find-id scoped k xs item later (rw (c) at e)
    ]

registered-eq-ok :
    (k : String) (r : Registry) (item : Fields)
    → registered k r ≡ ok item
    → find k r.by_id ≡ some item
registered-eq-ok k r item h = ground arith

accept_waiver-parts :
    (r : Registry) (w : Waiver) {u : Unit {0}}
    → accept_waiver r w ≡ ok u
    → (item : Fields) × (find w.waiver_id r.by_id ≡ some item)
      × ((all (λ (l : String × Json). py_eq (get l.0 item) l.1) (locked_fields w)
            && is_ink (get "reason" item)
            && is_ink (get "expires_when" item))
          ≡ true)
unfolding accept_waiver
accept_waiver-parts r w h =
    let (item, e, h1) = >>=-returns (registered w.waiver_id r) _ h in
    let (_, e2, h2) = >>=-returns (check_locked item (locked_fields w)) _ h1 in
    let (_, e3, e4) =
      >>=-returns (require (is_ink (get "reason" item)) "golden div waiver has no reason") _ h2 in
    (
      item,
      registered-eq-ok w.waiver_id r item e,
      and-true_both _ (is_ink (get "expires_when" item))
          (and-true_both _ (is_ink (get "reason" item)) (check_locked-all item (locked_fields w) e2)
            (require-eq-ok (is_ink (get "reason" item)) _ e3))
          (require-eq-ok (is_ink (get "expires_when" item)) _ e4),
    )

accepted-binds :
    (r : Registry) (w : Waiver) {u : Unit {0}}
    → is_consistent r ≡ true
    → accept_waiver r w ≡ ok u
    → any (on_entry (binds w)) r.by_id ≡ true
accepted-binds r w c h =
    let (entries, _) = and-true_parts (all (entry_holds r.scoped_ids) r.by_id) _ c in
    let (item, e, holds) = accept_waiver-parts r w h in
    find-any w.waiver_id r.by_id item (binds w) e (
      and_shift (is_text w.waiver_id (get "id" item)) _ (is_ink (get "reason" item))
        (is_ink (get "expires_when" item)) (find-id r.scoped_ids w.waiver_id r.by_id item entries e)
        holds)

pub accept_waivers-all :
    (r : Registry) (ws accepted : List Waiver)
    → is_consistent r ≡ true
    → accept_waivers r ws ≡ ok accepted
    → (all (λ w. any (on_entry (binds w)) r.by_id) ws ≡ true) × (accepted ≡ ws)
unfolding accept_waivers
accept_waivers-all r [] accepted c h = (refl, sym (ok-injective [] accepted h))
accept_waivers-all r (w ∷ ws) accepted c h =
    let (_, e, h1) = >>=-returns (accept_waiver r w) _ h in
    let (others, e', h2) = >>=-returns (accept_waivers r ws) _ h1 in
    let (bound, same) = accept_waivers-all r ws others c e' in
    (
      and-true_both _ _ (accepted-binds r w c e) bound,
      sym (ok-injective (w ∷ others) accepted h2) ∙ ap (λ l. w ∷ l) same,
    )

elem-names :
    (k : String) (names : List String) (v : Json)
    → elem k names ≡ true
    → is_text k v ≡ true
    → any (λ n. is_text n v) names ≡ true
elem-names k [] v e h = cc
elem-names k (n ∷ names) v e h = elim (Bool-cases (str_eq k n)) [
  | inl c ↦ rw (subst (λ m. is_text m v ≡ true) ((eq_iff k n).0 c) h) refl
  | inr c ↦ rw (elem-names k names v (rw (c) at e) h) (or_true (is_text n v))
]

elem-subset :
    (k : String) (xs ys : List String)
    → all (λ x. elem x ys) xs ≡ true
    → elem k xs ≡ true
    → elem k ys ≡ true
elem-subset k [] ys a e = cc
elem-subset k (x ∷ xs) ys a e =
    let (here, later) = and-true_parts (elem x ys) (all (λ y. elem y ys) xs) a in
    elim (Bool-cases (str_eq k x)) [
      | inl c ↦ subst (λ m. elem m ys ≡ true) (sym ((eq_iff k x).0 c)) here
      | inr c ↦ elem-subset k xs ys later (rw (c) at e)
    ]

pub not_stray :
    (scoped : List String) (xs : List (String × Fields))
    → all (λ x. elem x expected_ids) scoped ≡ true
    → all (entry_holds scoped) xs ≡ true
    → any (on_entry is_stray) xs ≡ false
not_stray scoped [] s a = refl
not_stray scoped ((name, item) ∷ xs) s a =
    let (here, later) =
      and-true_parts (entry_holds scoped (name, item)) (all (entry_holds scoped) xs) a in
    let (own, listed) = and-true_parts (is_text name (get "id" item)) _ here in
    let ih = not_stray scoped xs s later in
    elim (Bool-cases (is_scoped item)) [
      | inl c ↦
          let among : elem name scoped ≡ true = rw (c) at listed in
          let known =
            elem-names name expected_ids (get "id" item)
              (elem-subset name scoped expected_ids s among) own in
          rw (c, known, ih) refl
      | inr c ↦ rw (c, ih) refl
    ]
