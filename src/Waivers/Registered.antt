-- ===== src/Waivers/Registered.antt =====
-- What the loop over the waivers keeps of them.
use nscscc_cpu.Base.{
  Bool, true, false, not, ◌&&◌, ◌||◌, String, str_eq, List, [], ◌∷◌, ◌++◌, elem, any, any-append,
  all, all_mono, same_set, all-append, ◌≡◌, refl, arith, ap, sym, ◌∙◌, subst, Bool-cases, inl, inr,
  and-true_parts, str_eq_refl, codes, is_empty, if◌then◌else◌,
}
use nscscc_cpu.Result.{
  ok, require, refuse_if, >>=-returns, ok-injective, NoEscape, NoEscape-bind, require-NoEscape,
  require-bind-NoEscape,
}
use nscscc_cpu.Json.{Json, str, obj, Fields, keys, get, is_text}
use nscscc_cpu.Waivers.{
  Registry, find, is_registered, is_found, waiver_object, waiver_name, waiver_fields, is_scoped,
  register, read_waiver, read_waivers,
}

waiver_object-eq-ok : (v : Json) (item : Fields) → waiver_object v ≡ ok item → v ≡ obj item
waiver_object-eq-ok v item h = ground arith

waiver_name-eq-ok : (v : Json) (name : String) → waiver_name v ≡ ok name → v ≡ str name
waiver_name-eq-ok v name h = ground arith

-- A waiver that is read is an object with a new name.
read_waiver-parts :
    (r r' : Registry) (v : Json)
    → read_waiver r v ≡ ok r'
    → (item : Fields) × (name : String) × (v ≡ obj item)
      × (get "id" item ≡ str name)
      × (register name item r ≡ r')
unfolding read_waiver
read_waiver-parts r r' v h =
    let (item, e1, h1) = >>=-returns (waiver_object v) _ h in
    let (_, _, h2) =
      >>=-returns
        (require (same_set (keys item) waiver_fields) "lint waiver entry fields are invalid") _
        h1 in
    let (name, e2, h3) = >>=-returns (waiver_name (get "id" item)) _ h2 in
    let (_, _, h4) =
      >>=-returns
        (refuse_if (is_registered name r) "lint waiver ids must be unique non-empty strings") _
        h3 in
    (
      item,
      name,
      waiver_object-eq-ok v item e1,
      waiver_name-eq-ok (get "id" item) name e2,
      ok-injective (register name item r) r' h4,
    )

-- A property of the fields, and the same of a waiver.
abbrev pub on_fields : (Fields → Bool) → Json → Bool
on_fields p (obj item) = p item
on_fields p _ = false

abbrev pub on_entry : (Fields → Bool) → String × Fields → Bool
on_entry p (name, item) = p item

or_shift : (a b c : Bool) → ((a || (b || false)) || c) ≡ (a || (b || c))
or_shift a b c = ground arith

or_false : (a : Bool) → a ≡ (a || false)
or_false a = ground arith

-- The registry has an entry with a property exactly when one of the waivers has it.
pub read_waivers-any :
    (p : Fields → Bool) (r r' : Registry) (values : List Json)
    → read_waivers r values ≡ ok r'
    → any (on_entry p) r'.by_id ≡ (any (on_entry p) r.by_id || any (on_fields p) values)
unfolding read_waivers
read_waivers-any p r r' [] h =
    subst (λ (q : Registry). any (on_entry p) q.by_id ≡ (any (on_entry p) r.by_id || false))
      (ok-injective r r' h) (or_false (any (on_entry p) r.by_id))
read_waivers-any p r r' (v ∷ rest) h =
    let (next, e, h') = >>=-returns (read_waiver r v) _ h in
    let (item, name, is_item, _, same) = read_waiver-parts r next v e in
    let ih = read_waivers-any p next r' rest h' in
    let step : any (on_entry p) next.by_id ≡ (any (on_entry p) r.by_id || (p item || false)) =
      ap (λ (q : Registry). any (on_entry p) q.by_id) (sym same)
      ∙ any-append (on_entry p) r.by_id ((name, item) ∷ []) in
    let here : on_fields p v ≡ p item = ap (on_fields p) is_item in
    ih ∙ rw (step, here) (or_shift (any (on_entry p) r.by_id) (p item) (any (on_fields p) rest))

-- An entry stands under its waiver's id, which is noted if its scope is the golden one.
abbrev pub entry_holds : List String → String × Fields → Bool
entry_holds scoped (name, item) =
    is_text name (get "id" item) && (not (is_scoped item) || elem name scoped)

-- What holds of the registry at each turn of the loop.
abbrev pub is_consistent : Registry → Bool
is_consistent r =
    all (entry_holds r.scoped_ids) r.by_id && all (λ name. is_registered name r) r.scoped_ids

known_more : (a b c : Bool) → (a && (b || c)) ≡ true → (d : Bool) → (a && (b || (d || c))) ≡ true
known_more a b c h d = ground arith

entry_holds-more :
    (name : String) (scoped : List String) (e : String × Fields)
    → entry_holds scoped e ≡ true
    → entry_holds (name ∷ scoped) e ≡ true
entry_holds-more name scoped (other, item) h =
    known_more (is_text other (get "id" item)) (not (is_scoped item)) (elem other scoped) h
      (str_eq other name)

is_found-append :
    (k : String) (xs : List (String × Fields)) (name : String) (item : Fields)
    → is_found (find k xs) ≡ true
    → is_found (find k (xs ++ (name, item) ∷ [])) ≡ true
unfolding find
is_found-append k [] name item h = cc
is_found-append k ((j, other) ∷ xs) name item h =
    let ih = is_found-append k xs name item in
    elim (Bool-cases (str_eq j k)) [ inl e ↦ rw (e) refl | inr e ↦ rw (e) (ih (rw (e) at h)) ]

is_found_last :
    (k : String) (xs : List (String × Fields)) (item : Fields)
    → is_found (find k (xs ++ (k, item) ∷ [])) ≡ true
unfolding find
is_found_last k [] item = rw (str_eq_refl k) refl
is_found_last k ((j, other) ∷ xs) item = elim (Bool-cases (str_eq j k)) [
  | inl e ↦ rw (e) refl
  | inr e ↦ rw (e) (is_found_last k xs item)
]

pick_true {ℓ} : {A : Type ℓ} (b : Bool) (x y : A) → b ≡ true → (if b then x else y) ≡ x
pick_true b x y h = rw (h) refl

pick_false {ℓ} : {A : Type ℓ} (b : Bool) (x y : A) → b ≡ false → (if b then x else y) ≡ y
pick_false b x y h = rw (h) refl

-- The two halves for a given list of the scoped names.
abbrev halves : String → Fields → Registry → List String → Bool
halves name item r scoped =
    all (entry_holds scoped) (r.by_id ++ (name, item) ∷ [])
    && all (λ k. is_registered k (register name item r)) scoped

-- The registry stays consistent when a waiver is entered under its own id.
register-is_consistent :
    (name : String) (item : Fields) (r : Registry)
    → get "id" item ≡ str name
    → is_consistent r ≡ true
    → is_consistent (register name item r) ≡ true
register-is_consistent name item r e h =
    let (a, b) = and-true_parts (all (entry_holds r.scoped_ids) r.by_id) _ h in
    let own : is_text name (get "id" item) ≡ true = rw (e) (str_eq_refl name) in
    let kept : all (λ k. is_registered k (register name item r)) r.scoped_ids ≡ true =
      all_mono (λ k. is_registered k r) (λ k. is_registered k (register name item r))
        (λ k. is_found-append k r.by_id name item) r.scoped_ids b in
    elim (Bool-cases (is_scoped item)) [
      | inl s ↦
          let more : all (entry_holds (name ∷ r.scoped_ids)) r.by_id ≡ true =
            all_mono (entry_holds r.scoped_ids) (entry_holds (name ∷ r.scoped_ids))
              (entry_holds-more name r.scoped_ids) r.by_id a in
          subst (λ scoped. halves name item r scoped ≡ true)
            (sym (pick_true (is_scoped item) (name ∷ r.scoped_ids) r.scoped_ids s))
            (rw
              (
                all-append (entry_holds (name ∷ r.scoped_ids)) r.by_id ((name, item) ∷ []),
                more,
                own,
                s,
                str_eq_refl name,
                is_found_last name r.by_id item,
                kept,
              )
              refl)
      | inr s ↦
          subst (λ scoped. halves name item r scoped ≡ true)
            (sym (pick_false (is_scoped item) (name ∷ r.scoped_ids) r.scoped_ids s))
            (rw (all-append (entry_holds r.scoped_ids) r.by_id ((name, item) ∷ []), a, own, s, kept)
              refl)
    ]

pub read_waivers-is_consistent :
    (r r' : Registry) (values : List Json)
    → is_consistent r ≡ true
    → read_waivers r values ≡ ok r'
    → is_consistent r' ≡ true
unfolding read_waivers
read_waivers-is_consistent r r' [] c h = subst (λ q. is_consistent q ≡ true) (ok-injective r r' h) c
read_waivers-is_consistent r r' (v ∷ rest) c h =
    let (next, e, h') = >>=-returns (read_waiver r v) _ h in
    let (item, name, _, named, same) = read_waiver-parts r next v e in
    read_waivers-is_consistent next r' rest
      (subst (λ q. is_consistent q ≡ true) same (register-is_consistent name item r named c)) h'

pub waiver_object-NoEscape : (v : Json) → NoEscape (waiver_object v)
waiver_object-NoEscape v = ground arith

waiver_name-NoEscape : (v : Json) → NoEscape (waiver_name v)
waiver_name-NoEscape (str s) =
    require-bind-NoEscape (not (is_empty (codes s)))
      "lint waiver ids must be unique non-empty strings" (ok s) tt
waiver_name-NoEscape _ = tt

pub read_waivers-NoEscape : (r : Registry) (values : List Json) → NoEscape (read_waivers r values)
unfolding read_waivers read_waiver
read_waivers-NoEscape r [] = tt
read_waivers-NoEscape r (v ∷ rest) =
    NoEscape-bind (read_waiver r v) _
      (NoEscape-bind (waiver_object v) _ (waiver_object-NoEscape v) (λ item _.
        NoEscape-bind
          (require (same_set (keys item) waiver_fields) "lint waiver entry fields are invalid") _
          (require-NoEscape _ _)
          (λ _ _.
            NoEscape-bind (waiver_name (get "id" item)) _ (waiver_name-NoEscape (get "id" item))
              (λ name _.
                NoEscape-bind
                  (refuse_if (is_registered name r)
                    "lint waiver ids must be unique non-empty strings")
                  _ (require-NoEscape _ _) (λ _ _. tt)))))
      (λ next _. read_waivers-NoEscape next rest)
