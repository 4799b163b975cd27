-- ===== src/Contract/Manifest/Parsed.antt =====
-- What a manifest that is parsed holds: the key and the value of each of its lines.
use nscscc_cpu.Base.{
  ℕ, Bool, true, false, ◌||◌, List, [], ◌∷◌, ◌++◌, text_eq, text_eq-eq, text_eq_refl, strip,
  splitlines, is_empty, any, ◌==◌, ◌≡◌, refl, arith, or-false_parts, Bool-cases, Option-cases, inl,
  inr, subst, ap, sym, String, none, some,
}
use nscscc_cpu.Result.{
  ok, err, refused, require, refuse_if, refuse_if-ok, >>=-returns, ok-injective,
}
use nscscc_cpu.Contract.Manifest.{
  Values, assign, knows, value_of, split_first, parse_entry, is_skipped, parse_line, parse_lines,
  golden_commit_key, is_commit, parse_manifest,
}

-- The key is there, with the value.
abbrev pub Holds : List ℕ → List ℕ → Values → Type 0
Holds key value values = (knows key values ≡ true) × (value_of key values ≡ value)

assign-Holds : (key value : List ℕ) (values : Values) → Holds key value (assign key value values)
unfolding assign value_of
assign-Holds key value [] = rw (text_eq_refl key) (refl, refl)
assign-Holds key value ((k, v) ∷ values) =
    let (a, b) = assign-Holds key value values in
    elim (Bool-cases (text_eq k key)) [
      | inl e ↦ rw (e) (rw (e) refl, rw (e) refl)
      | inr e ↦ rw (e) (rw (e) a, rw (e) b)
    ]

-- An assignment to another key leaves the value.
assign_other :
    (key value j w : List ℕ) (values : Values)
    → text_eq j key ≡ false
    → Holds key value values
    → Holds key value (assign j w values)
unfolding assign value_of
assign_other key value j w [] d (h, k) = cc
assign_other key value j w ((i, v) ∷ values) d (h, k) = elim (Bool-cases (text_eq i j)) [
  | inl e ↦
      let f : text_eq i key ≡ false = rw (text_eq-eq i j e) d in
      rw (e) (rw (f) (rw (f) at h), rw (f) (rw (f) at k))
  | inr e ↦ elim (Bool-cases (text_eq i key)) [
    | inl f ↦ rw (e) (rw (f) refl, rw (f) (rw (f) at k))
    | inr f ↦
        let (a, b) = assign_other key value j w values d (rw (f) at h, rw (f) at k) in
        rw (e) (rw (f) a, rw (f) b)
  ]
]

-- A key that is assigned anew is not one that is there.
fresh_is_other :
    (key value j : List ℕ) (values : Values)
    → knows j values ≡ false
    → Holds key value values
    → text_eq j key ≡ false
fresh_is_other key value j values new (h, k) = elim (Bool-cases (text_eq j key)) [
  | inl e ↦ let same = rw (text_eq-eq j key e) at new in cc
  | inr e ↦ e
]

refused_is_not_ok {ℓ} : {P : Type ℓ} {s : String} (now : Values) → err (refused s) ≡ ok now → P
refused_is_not_ok now h = cc

parse_entry-kept :
    (key value line : List ℕ) (values : Values) {now : Values}
    → Holds key value values
    → parse_entry values line ≡ ok now
    → Holds key value now
unfolding parse_entry
parse_entry-kept key value line values {now} d h = elim (Option-cases (split_first line)) [
  | inl e ↦ refused_is_not_ok now (rw (e, parse_entry) at h)
  | inr ((j, w), e) ↦
      let (_, p, q) =
        >>=-returns (refuse_if (is_empty (strip j) || knows (strip j) values) _) _
          (rw (e, parse_entry) at h) in
      let (_, fresh) =
        or-false_parts (is_empty (strip j)) (knows (strip j) values)
          (refuse_if-ok (is_empty (strip j) || knows (strip j) values) _ p) in
      subst (Holds key value) (ok-injective _ now q) (
        assign_other key value (strip j) (strip w) values
          (fresh_is_other key value (strip j) values fresh d) d)
]

parse_line-kept :
    (key value raw : List ℕ) (values : Values) {now : Values}
    → Holds key value values
    → parse_line values raw ≡ ok now
    → Holds key value now
unfolding parse_line
parse_line-kept key value raw values {now} d h = elim (Bool-cases (is_skipped (strip raw))) [
  | inl e ↦ subst (Holds key value) (ok-injective values now (rw (e) at h)) d
  | inr e ↦ parse_entry-kept key value (strip raw) values d (rw (e) at h)
]

parse_lines-kept :
    (key value : List ℕ) (lines : List (List ℕ)) (values : Values) {result : Values}
    → Holds key value values
    → parse_lines values lines ≡ ok result
    → Holds key value result
unfolding parse_lines
parse_lines-kept key value [] values {result} d h =
    subst (Holds key value) (ok-injective values result h) d
parse_lines-kept key value (raw ∷ lines) values d h =
    let (now, p, q) = >>=-returns (parse_line values raw) _ h in
    parse_lines-kept key value lines now (parse_line-kept key value raw values d p) q

-- The text is a key without `=`, then `=`, then the value.
abbrev pub IsPair : List ℕ → List ℕ → List ℕ → Type 0
IsPair line key value = (line ≡ key ++ b'=' ∷ value) × (any (λ c. c == b'=') key ≡ false)

-- The line is of a key and a value, and the key, which has a character, has that value in the values.
abbrev pub IsGiven : List ℕ → Values → Type 0
IsGiven raw values =
    (key : List ℕ) × (value : List ℕ) × IsPair (strip raw) key value
    × (is_empty (strip key) ≡ false)
    × Holds (strip key) (strip value) values

no_pair {ℓ} : {P : Type ℓ} {p : List ℕ × List ℕ} → none ≡ some p → P
no_pair h = cc

some_pair : (p q : List ℕ × List ℕ) → some p ≡ some q → (p.0 ≡ q.0) × (p.1 ≡ q.1)
some_pair p q h = let e : p ≡ q = cc in (ap (λ r. r.0) e, ap (λ r. r.1) e)

split_first-IsPair :
    (line key value : List ℕ) → split_first line ≡ some (key, value) → IsPair line key value
unfolding split_first
split_first-IsPair [] key value h = cc
split_first-IsPair (c ∷ line) key value h = elim (Bool-cases (c == b'=')) [
  | inl e ↦
      let (p, q) = some_pair ([], line) (key, value) (rw (e) at h) in
      let same : c ≡ b'=' = ground arith in rw (sym p, sym q, same) (refl, refl)
  | inr e ↦ elim (Option-cases (split_first line)) [
    | inl f ↦ no_pair (rw (e, f) at h)
    | inr ((k, v), f) ↦
        let (p, q) = some_pair (c ∷ k, v) (key, value) (rw (e, f) at h) in
        let (a, b) = split_first-IsPair line k v f in rw (sym p, sym q) (rw (a) refl, rw (e) b)
  ]
]

-- A line that gives a key is kept by its assignment.
parse_line-IsGiven :
    (raw : List ℕ) (values : Values) {now : Values}
    → is_skipped (strip raw) ≡ false
    → parse_line values raw ≡ ok now
    → IsGiven raw now
unfolding parse_line parse_entry
parse_line-IsGiven raw values {now} s h = elim (Option-cases (split_first (strip raw))) [
  | inl e ↦ refused_is_not_ok now (rw (s, e, parse_entry) at h)
  | inr ((key, value), e) ↦
      let (_, p, q) =
        >>=-returns (refuse_if (is_empty (strip key) || knows (strip key) values) _) _
          (rw (s, e, parse_entry) at h) in
      let (named, _) =
        or-false_parts (is_empty (strip key)) (knows (strip key) values)
          (refuse_if-ok (is_empty (strip key) || knows (strip key) values) _ p) in
      (
        key,
        value,
        split_first-IsPair (strip raw) key value e,
        named,
        subst (Holds (strip key) (strip value)) (ok-injective _ now q)
            (assign-Holds (strip key) (strip value) values),
      )
]

parse_lines-IsGiven :
    (before : List (List ℕ)) (raw : List ℕ) (after : List (List ℕ)) (values : Values)
    {result : Values}
    → is_skipped (strip raw) ≡ false
    → parse_lines values (before ++ raw ∷ after) ≡ ok result
    → IsGiven raw result
unfolding parse_lines
parse_lines-IsGiven [] raw after values s h =
    let (now, p, q) = >>=-returns (parse_line values raw) _ h in
    let (key, value, pair, named, holds) = parse_line-IsGiven raw values s p in
    (key, value, pair, named, parse_lines-kept (strip key) (strip value) after now holds q)
parse_lines-IsGiven (line ∷ before) raw after values s h =
    let (now, p, q) = >>=-returns (parse_line values line) _ h in
    parse_lines-IsGiven before raw after now s q

-- In the result of a manifest that is parsed, the key of every line that is not blank and no
-- comment, wherever the line stands, has the value of that very line: what stands before the first
-- `=` and behind it, stripped.
pub parse_manifest-IsGiven :
    (is_regular : Bool) (content : List ℕ) (values : Values) (before : List (List ℕ)) (raw : List ℕ)
    (after : List (List ℕ))
    → parse_manifest is_regular (some content) ≡ ok values
    → splitlines content ≡ before ++ raw ∷ after
    → is_skipped (strip raw) ≡ false
    → IsGiven raw values
unfolding parse_manifest
parse_manifest-IsGiven is_regular content values before raw after h l s =
    let (_, _, h1) = >>=-returns (require is_regular _) _ h in
    let (vs, e, h2) = >>=-returns (parse_lines [] (splitlines content)) _ h1 in
    let (_, p, q) = >>=-returns (require (is_commit (value_of golden_commit_key vs)) _) _ h2 in
    subst (IsGiven raw) (ok-injective vs values q) (
      parse_lines-IsGiven before raw after [] s (subst (λ lines. parse_lines [] lines ≡ ok vs) l e))
