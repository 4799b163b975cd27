-- ===== src/Replacement/Plan/Accepted.antt =====
-- What the loading of a plan accepts as a whole.
use nscscc_cpu.Base.{
  true, codes, some, sym, Bool-cases, inl, inr, ℕ, String, List, [], ◌∷◌, ◌++◌, text_eq, text_eq-eq,
  ◌≡◌, refl, ap, ◌∙◌, subst, same_set,
}
use nscscc_cpu.Result.{ok, require, >>=-returns, require-eq-ok, ok-injective}
use nscscc_cpu.Json.{str, Fields, keys, Json, obj, arr, Items, nil, cons, get}
use nscscc_cpu.Contract.Manifest.{Values, knows, value_of, golden_commit_key}
use nscscc_cpu.Replacement.Git.{
  Worktree, SourceState, require_clean_source_head, git_regular_blob_entry, git_text, is_full_sha,
}
use nscscc_cpu.Replacement.Golden.{parse_lock, read_golden_files, checked_repo_git_path}
use nscscc_cpu.Replacement.Plan.{
  Repository, ComponentReplacement, ComponentReplacementPlan, locked_commit, raw_replacements,
  replacement_items, git_blob, or_refuse, load_replacement, load_replacements, load_spec,
  load_component_replacement_plan, is_schema_version,
}
use nscscc_cpu.Replacement.Plan.Read.{checked_path-text}
use nscscc_cpu.Replacement.Plan.Bound.{
  IsStated, or_refuse-found, IsAccepted, IsAccepted-append, load_replacement-IsBound,
}

some_items_of :
    (v : Json) (items : Items)
    → replacement_items v ≡ ok items
    → (first : Json) × (more : Items) × (v ≡ arr (cons first more)) × (items ≡ cons first more)
some_items_of (arr (cons raw more)) items h =
    (raw, more, refl, sym (ok-injective (cons raw more) items h))
some_items_of (arr nil) items h = cc
some_items_of _ items h = cc

-- The replacements of a document.
some_items :
    (document : Json) (items : Items)
    → raw_replacements document ≡ ok items
    → (fields : Fields) × (document ≡ obj fields)
      × (get "replacements" fields ≡ arr items)
      × (first : Json) × (more : Items) × (items ≡ cons first more)
unfolding raw_replacements
some_items (obj document) items h =
    let (_, _, h1) =
      >>=-returns
        (require (same_set (keys document) ("schema_version" ∷ "replacements" ∷ []))
          "replacement spec must contain exactly schema_version and replacements")
        _ h in
    let (_, _, h2) = >>=-returns (is_schema_version (get "schema_version" document)) _ h1 in
    let (first, more, v, e) = some_items_of (get "replacements" document) items h2 in
    (document, refl, v ∙ sym (ap arr e), first, more, e)
some_items _ items h = cc

locked_known :
    (manifest : Values) (commit : List ℕ)
    → locked_commit manifest ≡ ok commit
    → (knows golden_commit_key manifest ≡ true) × (value_of golden_commit_key manifest ≡ commit)
locked_known manifest commit h = elim (Bool-cases (knows golden_commit_key manifest)) [
  | inl known ↦ (known, ok-injective (value_of golden_commit_key manifest) commit (rw (known) at h))
  | inr unknown ↦ cc (rw (unknown) at h)
]

-- The head of a worktree that passes.
head_checked :
    (w : Worktree) (head : List ℕ) (state : SourceState)
    → require_clean_source_head w head ≡ ok state
    → git_text w.head ≡ ok head
unfolding require_clean_source_head
head_checked w head state h =
    let (_, _, h1) =
      >>=-returns
        (require (is_full_sha head) "--source-head must be a full lowercase 40-character Git SHA") _
        h in
    let (actual, e, h2) = >>=-returns (git_text w.head) _ h1 in
    let (_, same, _) =
      >>=-returns (require (text_eq actual head) "replacement source HEAD changed") _ h2 in
    e ∙ ap ok (text_eq-eq actual head (require-eq-ok (text_eq actual head) _ same))

append_nil : {A : Type 0} (xs : List A) → xs ++ [] ≡ xs
append_nil [] = refl
append_nil (x ∷ xs) = ap (λ ys. x ∷ ys) (append_nil xs)

append_one : {A : Type 0} (xs : List A) (x : A) (ys : List A) → (xs ++ x ∷ []) ++ ys ≡ xs ++ x ∷ ys
append_one [] x ys = refl
append_one (z ∷ xs) x ys = ap (λ zs. z ∷ zs) (append_one xs x ys)

module _ (R : Repository) where
  -- The items of the document, in order.
  abbrev pub AllStated : Items → List (ComponentReplacement R.Byte) → Type 0
  AllStated nil [] = Unit
  AllStated nil (r ∷ rs) = ⊥
  AllStated (cons item items) [] = ⊥
  AllStated (cons item items) (r ∷ rs) = IsStated R item r × AllStated items rs

  module _ (head base_commit : List ℕ) (locked : List (List ℕ)) where
    load_replacements-IsAccepted :
        (before : List (ComponentReplacement R.Byte)) (items : Items)
        (rs : List (ComponentReplacement R.Byte))
        → IsAccepted R head base_commit locked before
        → load_replacements R head base_commit locked before items ≡ ok rs
        → IsAccepted R head base_commit locked rs
    unfolding load_replacements
    load_replacements-IsAccepted before nil rs a h =
        subst (IsAccepted R head base_commit locked) (ok-injective before rs h) a
    load_replacements-IsAccepted before (cons item items) rs a h =
        let (r, e, h1) = >>=-returns (load_replacement R head base_commit locked before item) _ h in
        let (b, t, x, y, _) = load_replacement-IsBound R head base_commit locked before item r e in
        load_replacements-IsAccepted (before ++ r ∷ []) items rs
          (IsAccepted-append R head base_commit locked before r a b t x y) h1

    -- Each item adds the replacement that it states.
    load_replacements-AllStated :
        (before : List (ComponentReplacement R.Byte)) (items : Items)
        (rs : List (ComponentReplacement R.Byte))
        → load_replacements R head base_commit locked before items ≡ ok rs
        → (added : List (ComponentReplacement R.Byte)) × (rs ≡ before ++ added)
          × AllStated items added
    unfolding load_replacements
    load_replacements-AllStated before nil rs h =
        ([], sym (ok-injective before rs h) ∙ sym (append_nil before), tt)
    load_replacements-AllStated before (cons item items) rs h =
        let (r, e, h1) = >>=-returns (load_replacement R head base_commit locked before item) _ h in
        let (_, _, _, _, stated) =
          load_replacement-IsBound R head base_commit locked before item r e in
        let (added, same, all) = load_replacements-AllStated (before ++ r ∷ []) items rs h1 in
        (r ∷ added, same ∙ append_one before r added, (stated, all))

  -- The spec that is committed at the plan's path: its bytes, its digest and its replacements.
  pub record SpecRead (head : List ℕ) (path : List ℕ) (digest : String) (items : Items)
      : Type 0 where
    pub payload : List R.Byte
    pub committed : R.blob head path ≡ some payload
    pub same_digest : R.sha256_bytes payload ≡ digest
    pub text : List ℕ
    pub decoded : R.decode payload ≡ some text
    pub document : Fields
    pub parsed : R.loads text ≡ some (obj document)
    pub listed : get "replacements" document ≡ arr items
    pub first : Json
    pub more : Items
    pub filled : items ≡ cons first more

  load_spec-SpecRead :
      (head path : List ℕ) (spec : Items × String)
      → load_spec R head path ≡ ok spec
      → SpecRead head path spec.1 spec.0
  unfolding load_spec
  load_spec-SpecRead head path spec h =
      let (_, _, h1) = >>=-returns (git_regular_blob_entry (R.listing head path) path) _ h in
      let (payload, a, h2) = >>=-returns (git_blob R head path) _ h1 in
      let (text, b, h3) =
        >>=-returns (or_refuse "replacement spec is not valid UTF-8 JSON" (R.decode payload)) _
          h2 in
      let (document, c, h4) = >>=-returns (or_refuse "invalid JSON" (R.loads text)) _ h3 in
      let (items, e, h5) = >>=-returns (raw_replacements document) _ h4 in
      let (fields, is_object, listed, first, more, filled) = some_items document items e in
      subst (λ (s : Items × String). SpecRead head path s.1 s.0) (ok-injective _ spec h5)
        (record {
          payload = payload;
          committed = or_refuse-found "git cat-file blob failed" (R.blob head path) a;
          same_digest = refl;
          text = text;
          decoded = or_refuse-found "replacement spec is not valid UTF-8 JSON" (R.decode payload) b;
          document = fields;
          parsed = or_refuse-found "invalid JSON" (R.loads text) c ∙ ap some is_object;
          listed = listed;
          first = first;
          more = more;
          filled = filled;
        })

  -- What a plan rests on.
  pub record IsLoaded (spec_path : Json) (source_head : List ℕ)
      (plan : ComponentReplacementPlan R.Byte) : Type 0 where
    pub at_head : git_text R.worktree.head ≡ ok source_head
    pub path : String
    pub path_given : spec_path ≡ str path
    pub path_kept : plan.spec_path ≡ codes path
    pub items : Items
    pub spec : SpecRead source_head plan.spec_path plan.spec_sha256 items
    pub stated : AllStated items plan.replacements
    pub manifest : Values
    pub manifest_read : parse_lock R.manifest ≡ ok manifest
    pub commit_known : knows golden_commit_key manifest ≡ true
    pub commit_locked : value_of golden_commit_key manifest ≡ plan.base_candidate_commit
    pub locked : List (List ℕ)
    pub locked_read : read_golden_files R.golden_files ≡ ok locked
    pub accepted : IsAccepted R source_head plan.base_candidate_commit locked plan.replacements

  -- A plan that is loaded for a source commit: the commit is the head of the worktree; the spec is the
  -- document committed at the path given, with the plan's digest; each of its items, of which there is at
  -- least one, gives the plan's replacement with its target, its source and its two digests; no two
  -- replacements share a target or a source; each target is a golden file that ends in .v and has its
  -- source's name; the payload is the committed source, has the item's digest and passes the tests of
  -- replacement Verilog beside the target of the manifest's golden commit, which has the item's base digest.
  pub load_component_replacement_plan-IsLoaded :
      (spec_path : Json) (source_head : List ℕ) (plan : ComponentReplacementPlan R.Byte)
      → load_component_replacement_plan R spec_path source_head ≡ ok plan
      → IsLoaded spec_path source_head plan
  unfolding load_component_replacement_plan
  load_component_replacement_plan-IsLoaded spec_path source_head plan h =
      let (manifest, m, h1) = >>=-returns (parse_lock R.manifest) _ h in
      let (state, a, h2) = >>=-returns (require_clean_source_head R.worktree source_head) _ h1 in
      let (_, _, h3) =
        >>=-returns (require (text_eq state.head source_head) "replacement source HEAD changed") _
          h2 in
      let (path, p, h4) = >>=-returns (checked_repo_git_path spec_path) _ h3 in
      let (spec, i, h5) = >>=-returns (load_spec R source_head path) _ h4 in
      let (locked, l, h6) = >>=-returns (read_golden_files R.golden_files) _ h5 in
      let (base_commit, b, h7) = >>=-returns (locked_commit manifest) _ h6 in
      let (rs, r, h8) =
        >>=-returns (load_replacements R source_head base_commit locked [] spec.0) _ h7 in
      let (text, given, kept) = checked_path-text spec_path path p in
      let (known, locked_is) = locked_known manifest base_commit b in
      let (added, same, stated) =
        load_replacements-AllStated source_head base_commit locked [] spec.0 rs r in
      subst (λ (q : ComponentReplacementPlan R.Byte). IsLoaded spec_path source_head q)
        (ok-injective _ plan h8)
        (record {
          at_head = head_checked R.worktree source_head state a;
          path = text;
          path_given = given;
          path_kept = kept;
          items = spec.0;
          spec = load_spec-SpecRead source_head path spec i;
          stated = subst (AllStated spec.0) (sym same) stated;
          manifest = manifest;
          manifest_read = m;
          commit_known = known;
          commit_locked = locked_is;
          locked = locked;
          locked_read = l;
          accepted =
              load_replacements-IsAccepted source_head base_commit locked [] spec.0 rs
                (tt, refl, refl) r;
        })
