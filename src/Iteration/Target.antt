-- ===== src/Iteration/Target.antt =====
-- `_review_target_is_acceptable` of tools/refactor.py.
use nscscc_cpu.Base.{
  ℕ, ◌≡◌, ◌↔◌, inl, inr, Bool, true, false, ◌||◌, List, all, filter_b, map, codes, text_eq,
  text_elem, has_prefix, has_ink, strip, splitlines, words, replace_char, drop, if◌then◌else◌,
  Bool-cases, text_eq-eq, text_eq_refl, [], ◌∷◌, ◌++◌, ◌⊎◌, ◌==◌, ==_iff, refl, sym, ap, ◌∙◌, subst,
  arith, and-true_parts,
}
use nscscc_cpu.Result.{Result, ok, ◌>>=◌, ◌>>◌, require, >>=-returns, require-eq-ok}
use nscscc_cpu.Iteration.Host.{Host}

-- The lines of the diff that hold a path, with backslashes turned.
abbrev pub changed_paths : List ℕ → List (List ℕ)
changed_paths changed =
    map (λ line. replace_char b'\\' (codes "/") (strip line))
      (filter_b has_ink (splitlines changed))

-- Evidence may be committed after the review.
abbrev pub is_evidence : List ℕ → Bool
is_evidence path =
    has_prefix (codes "logs/refactor/") path || text_eq path (codes "docs/refactor/status.yml")

module _ (H : Host) where
  open H use {rev_list_parents, diff_name_only}

  unfoldable pub review_target_is_acceptable : List ℕ → List ℕ → Result (Unit {0})
  review_target_is_acceptable target head = if text_eq target head then ok tt else (do
    parent_line ← rev_list_parents head
    require (text_elem target (drop 1 (words parent_line)))
        "must be current HEAD or one of its direct parents"
    changed ← diff_name_only target head
    require (all is_evidence (changed_paths changed))
        "is stale because post-target commits changed non-evidence files")

-- A path below logs/refactor/, or docs/refactor/status.yml.
abbrev pub IsEvidence : List ℕ → Type 0
IsEvidence path =
    ((rest : List ℕ) × (path ≡ codes "logs/refactor/" ++ rest))
    ⊎ (path ≡ codes "docs/refactor/status.yml")

-- The path that a line of the diff holds.
abbrev pub path_of : List ℕ → List ℕ
path_of line = replace_char b'\\' (codes "/") (strip line)

-- The target is the head itself, or one of the words behind the first in the head's line of
-- `rev-list --parents`, and each line of the diff that is not blank holds an evidence file.
pub data Acceptable (H : Host) (target head : List ℕ) : Type 0 where
  current : target ≡ head → Acceptable H target head
  parent :
      (line changed own : List ℕ) (older newer : List (List ℕ))
      → H.rev_list_parents head ≡ ok line
      → words line ≡ own ∷ older ++ target ∷ newer
      → H.diff_name_only target head ≡ ok changed
      → ((before after : List (List ℕ)) (shown : List ℕ)
          → splitlines changed ≡ before ++ shown ∷ after
          → has_ink shown ≡ true
          → IsEvidence (path_of shown))
      → Acceptable H target head

-- The tests of the code as these statements.
right_of : (a : Bool) {b : Bool} → a ≡ false → (a || b) ≡ true → b ≡ true
right_of a h k = ground arith

left_of : (a b : Bool) → a ≡ true → (a || b) ≡ true
left_of a b h = ground arith

prefix_rest : (p t : List ℕ) → has_prefix p t ≡ true → (rest : List ℕ) × (t ≡ p ++ rest)
prefix_rest [] t h = (t, refl)
prefix_rest (c ∷ p) [] h = cc
prefix_rest (c ∷ p) (d ∷ t) h =
    let (a, b) = and-true_parts (c == d) (has_prefix p t) h in
    let (rest, e) = prefix_rest p t b in
    let same : d ≡ c = sym ((==_iff c d).0 a) in (rest, ap (λ x. x ∷ t) same ∙ ap (λ x. c ∷ x) e)

has_prefix-append : (p rest : List ℕ) → has_prefix p (p ++ rest) ≡ true
has_prefix-append [] rest = refl
has_prefix-append (c ∷ p) rest = let ih = has_prefix-append p rest in ground arith

is_evidence-IsEvidence : (path : List ℕ) → is_evidence path ≡ true → IsEvidence path
is_evidence-IsEvidence path h = elim (Bool-cases (has_prefix (codes "logs/refactor/") path)) [
  | inl below ↦ inl (prefix_rest (codes "logs/refactor/") path below)
  | inr elsewhere ↦
      let is_status : text_eq path (codes "docs/refactor/status.yml") ≡ true =
        right_of (has_prefix (codes "logs/refactor/") path) elsewhere h in
      inr (text_eq-eq path (codes "docs/refactor/status.yml") is_status)
]

evidence_known : (path : List ℕ) → IsEvidence path → is_evidence path ≡ true
evidence_known path (inl (rest, e)) =
    subst (λ p. is_evidence p ≡ true) (sym e)
      (left_of (has_prefix (codes "logs/refactor/") (codes "logs/refactor/" ++ rest))
        (text_eq (codes "logs/refactor/" ++ rest) (codes "docs/refactor/status.yml"))
        (has_prefix-append (codes "logs/refactor/") rest))
evidence_known path (inr e) = subst (λ p. is_evidence p ≡ true) (sym e) refl

all_lines :
    (test : List ℕ → Bool) (ls : List (List ℕ))
    → all test (map path_of (filter_b has_ink ls)) ≡ true
    → (before after : List (List ℕ)) (shown : List ℕ) → ls ≡ before ++ shown ∷ after
    → has_ink shown ≡ true
    → test (path_of shown) ≡ true
all_lines test ls h before after shown e ink =
    go before (subst (λ l. all test (map path_of (filter_b has_ink l)) ≡ true) e h)
  where
    go :
        (before : List (List ℕ))
        → all test (map path_of (filter_b has_ink (before ++ shown ∷ after))) ≡ true
        → test (path_of shown) ≡ true
    go [] k = (and-true_parts (test (path_of shown)) _ (rw (ink) at k)).0
    go (b ∷ before) k = elim (Bool-cases (has_ink b)) [
      | inl inked ↦ go before ((and-true_parts (test (path_of b)) _ (rw (inked) at k)).1)
      | inr blank ↦ go before (rw (blank) at k)
    ]

lines_all :
    (test : List ℕ → Bool) (ls : List (List ℕ))
    → ((before after : List (List ℕ)) (shown : List ℕ)
        → ls ≡ before ++ shown ∷ after
        → has_ink shown ≡ true
        → test (path_of shown) ≡ true)
    → all test (map path_of (filter_b has_ink ls)) ≡ true
lines_all test [] k = refl
lines_all test (l ∷ ls) k =
    let rest =
      lines_all test ls
        (λ before after shown e ink. k (l ∷ before) after shown (ap (λ x. l ∷ x) e) ink) in
    elim (Bool-cases (has_ink l)) [
      | inl inked ↦ rw (inked, k [] ls l refl inked, rest) refl
      | inr blank ↦ rw (blank) rest
    ]

text_elem-split :
    (t : List ℕ) (ts : List (List ℕ))
    → text_elem t ts ≡ true
    → (older newer : List (List ℕ)) × (ts ≡ older ++ t ∷ newer)
text_elem-split t [] h = cc
text_elem-split t (s ∷ ts) h = elim (Bool-cases (text_eq t s)) [
  | inl same ↦ ([], ts, ap (λ x. x ∷ ts) (sym (text_eq-eq t s same)))
  | inr other ↦
      let (older, newer, e) = text_elem-split t ts (right_of (text_eq t s) other h) in
      (s ∷ older, newer, ap (λ x. s ∷ x) e)
]

text_elem-middle :
    (t : List ℕ) (older newer : List (List ℕ)) → text_elem t (older ++ t ∷ newer) ≡ true
text_elem-middle t [] newer = left_of (text_eq t t) _ (text_eq_refl t)
text_elem-middle t (s ∷ older) newer = let ih = text_elem-middle t older newer in ground arith

parents_split :
    (t : List ℕ) (ts : List (List ℕ))
    → text_elem t (drop 1 ts) ≡ true
    → (own : List ℕ) × (older newer : List (List ℕ)) × (ts ≡ own ∷ older ++ t ∷ newer)
parents_split t [] h = cc
parents_split t (own ∷ ts) h =
    let (older, newer, e) = text_elem-split t ts h in (own, older, newer, ap (λ x. own ∷ x) e)

module _ (H : Host) (target head : List ℕ) where
  review_target-Acceptable :
      review_target_is_acceptable H target head ≡ ok tt → Acceptable H target head
  unfolding review_target_is_acceptable
  review_target-Acceptable h = elim (Bool-cases (text_eq target head)) [
    | inl same ↦ current (text_eq-eq target head same)
    | inr differs ↦
        let (line, p, h₁) = >>=-returns (H.rev_list_parents head) _ (rw differs at h) in
        let (_, q, h₂) = >>=-returns (require (text_elem target (drop 1 (words line))) _) _ h₁ in
        let (changed, r, h₃) = >>=-returns (H.diff_name_only target head) _ h₂ in
        let (own, older, newer, named) = parents_split target (words line) (require-eq-ok _ _ q) in
        let evidence = require-eq-ok (all is_evidence (changed_paths changed)) _ h₃ in
        parent line changed own older newer p named r (λ before after shown e ink.
          is_evidence-IsEvidence (path_of shown)
            (all_lines is_evidence (splitlines changed) evidence before after shown e ink))
  ]

  Acceptable-review_target :
      Acceptable H target head → review_target_is_acceptable H target head ≡ ok tt
  unfolding review_target_is_acceptable
  Acceptable-review_target (current e) = rw e (rw (text_eq_refl head))
  Acceptable-review_target (parent line changed own older newer p named r k) =
      let is_parent : text_elem target (drop 1 (words line)) ≡ true =
        subst (λ ws. text_elem target (drop 1 ws) ≡ true) (sym named)
          (text_elem-middle target older newer) in
      let evidence : all is_evidence (changed_paths changed) ≡ true =
        lines_all is_evidence (splitlines changed) (λ before after shown e ink.
          evidence_known (path_of shown) (k before after shown e ink)) in
      elim (Bool-cases (text_eq target head)) [
        | inl same ↦ rw same
        | inr differs ↦ rw (differs, p, is_parent, r, evidence)
      ]

  -- A review target passes exactly if it is the current head, or a direct parent of it such that every
  -- path of the diff between the two is below logs/refactor/ or is docs/refactor/status.yml.
  pub review_target_iff :
      (review_target_is_acceptable H target head ≡ ok tt) ↔ Acceptable H target head
  review_target_iff = (review_target-Acceptable, Acceptable-review_target)
