-- ===== src/Waivers/Caught.antt =====
-- The validation of the waivers looks up no id that the registry does not have.
use nscscc_cpu.Base.{
  Bool, true, String, str_eq, eq_iff, List, [], ◌∷◌, elem, all, same_set, ◌≡◌, refl, arith, sym,
  subst, Bool-cases, inl, inr, and-true_parts, map, pos,
}
use nscscc_cpu.Result.{
  ok, require, require-eq-ok, NoEscape, NoEscape-bind, require-NoEscape, require-bind-NoEscape,
}
use nscscc_cpu.Json.{Json, int, arr, obj, Fields, items, keys, get, py_eq}
use nscscc_cpu.Waivers.{
  Waiver, expected_waivers, expected_ids, locked_fields, is_ink, Registry, is_registered,
  no_waivers, check_locked, registered, accept_waiver, accept_waivers, waiver_document, waiver_list,
  read_waivers, validate_waivers,
}
use nscscc_cpu.Waivers.Registered.{entry_holds, read_waivers-is_consistent, read_waivers-NoEscape}

all-elem :
    (p : String → Bool) (k : String) (xs : List String)
    → all p xs ≡ true
    → elem k xs ≡ true
    → p k ≡ true
all-elem p k [] a e = cc
all-elem p k (x ∷ xs) a e =
    let (here, later) = and-true_parts (p x) (all p xs) a in
    elim (Bool-cases (str_eq k x)) [
      | inl c ↦ subst (λ m. p m ≡ true) (sym ((eq_iff k x).0 c)) here
      | inr c ↦ all-elem p k xs later (rw (c) at e)
    ]

all_registered :
    (r : Registry)
    → all (λ k. is_registered k r) r.scoped_ids ≡ true
    → (names : List String) → all (λ k. elem k r.scoped_ids) names ≡ true
    → all (λ k. is_registered k r) names ≡ true
all_registered r a [] h = refl
all_registered r a (k ∷ names) h =
    let (here, later) = and-true_parts (elem k r.scoped_ids) _ h in
    let known = all-elem (λ n. is_registered n r) k r.scoped_ids a here in
    rw (known, all_registered r a names later) refl

check_locked-NoEscape :
    (item : Fields) (fields : List (String × Json)) → NoEscape (check_locked item fields)
unfolding check_locked
check_locked-NoEscape item [] = tt
check_locked-NoEscape item ((key, value) ∷ rest) =
    require-bind-NoEscape (py_eq (get key item) value) "golden div waiver drifted" _
      (check_locked-NoEscape item rest)

registered-NoEscape :
    (k : String) (r : Registry) → is_registered k r ≡ true → NoEscape (registered k r)
registered-NoEscape k r h = ground arith

accept_waivers-NoEscape :
    (r : Registry) (ws : List Waiver)
    → all (λ k. is_registered k r) (map (λ (w : Waiver). w.waiver_id) ws) ≡ true
    → NoEscape (accept_waivers r ws)
unfolding accept_waivers accept_waiver
accept_waivers-NoEscape r [] h = tt
accept_waivers-NoEscape r (w ∷ ws) h =
    let (here, later) = and-true_parts (is_registered w.waiver_id r) _ h in
    NoEscape-bind (accept_waiver r w) _
      (NoEscape-bind (registered w.waiver_id r) _ (registered-NoEscape w.waiver_id r here)
        (λ item _.
          NoEscape-bind (check_locked item (locked_fields w)) _
            (check_locked-NoEscape item (locked_fields w))
            (λ _ _.
              require-bind-NoEscape (is_ink (get "reason" item)) "golden div waiver has no reason" _
                (require-NoEscape (is_ink (get "expires_when" item))
                  "golden div waiver has no expiry condition"))))
      (λ _ _.
        NoEscape-bind (accept_waivers r ws) _ (accept_waivers-NoEscape r ws later) (λ _ _. tt))

waiver_document-NoEscape : (value : Json) → NoEscape (waiver_document value)
waiver_document-NoEscape (obj fields) =
    require-bind-NoEscape (same_set (keys fields) ("schema_version" ∷ "waivers" ∷ []))
      "lint waiver document must contain schema_version and waivers" _ tt
waiver_document-NoEscape _ = tt

waiver_list-NoEscape : (document : Fields) (value : Json) → NoEscape (waiver_list document value)
waiver_list-NoEscape document (arr xs) =
    require-bind-NoEscape (py_eq (get "schema_version" document) (int (pos 1)))
      "lint waiver schema_version/waivers is invalid" _ tt
waiver_list-NoEscape document _ = tt

-- Whatever the document is, validate_waivers returns or raises the tool's own error: the lookup
-- of an expected waiver by its id never fails with a KeyError.
pub validate_waivers-caught :
    (path sha256 : String) (value : Json) → NoEscape (validate_waivers path sha256 value)
unfolding validate_waivers
validate_waivers-caught path sha256 value =
    NoEscape-bind (waiver_document value) _ (waiver_document-NoEscape value) (λ document _.
      NoEscape-bind (waiver_list document (get "waivers" document)) _
        (waiver_list-NoEscape document (get "waivers" document))
        (λ waivers _.
          NoEscape-bind (read_waivers no_waivers (items waivers)) _
            (read_waivers-NoEscape no_waivers (items waivers))
            (λ r e.
              NoEscape-bind
                (require (same_set r.scoped_ids expected_ids) "golden div waiver set drifted") _
                (require-NoEscape _ _)
                (λ _ same.
                  NoEscape-bind (accept_waivers r expected_waivers) _
                    (accept_waivers-NoEscape r expected_waivers (
                      all_expected r (items waivers) e (
                        require-eq-ok (same_set r.scoped_ids expected_ids)
                          "golden div waiver set drifted" same)))
                    (λ _ _. tt)))))
  where
    all_expected :
        (r : Registry) (values : List Json)
        → read_waivers no_waivers values ≡ ok r
        → same_set r.scoped_ids expected_ids ≡ true
        → all (λ k. is_registered k r) expected_ids ≡ true
    all_expected r values e s =
        let (_, scoped) = and-true_parts (all (λ x. elem x expected_ids) r.scoped_ids) _ s in
        let (_, known) =
          and-true_parts (all (entry_holds r.scoped_ids) r.by_id) _
            (read_waivers-is_consistent no_waivers r values refl e) in
        all_registered r known expected_ids scoped
