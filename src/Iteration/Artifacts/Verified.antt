-- ===== src/Iteration/Artifacts/Verified.antt =====
-- What `_validate_artifacts` guarantees of the files that it accepts.
use nscscc_cpu.Base.{
  ℕ, ◌≡◌, refl, sym, true, false, not, String, List, [], ◌∷◌, ◌++◌, codes, text_eq, text_eq-eq,
  Option, none, some, arith, ap, ◌==◌, ==_iff, pos, length, subst,
}
use nscscc_cpu.Result.{ok, >>=-returns, require, require-eq-ok, ok-injective}
use nscscc_cpu.Json.{Json, str, int, obj, arr, items, Items, nil, cons, Fields, get}
use nscscc_cpu.Iteration.Require.{
  require_object, require_nonempty_string, require_nonnegative_int, require_object-eq-ok,
  require_nonempty_string-eq-ok, require_nonnegative_int-eq-ok,
}
use nscscc_cpu.Iteration.Host.{Host}
use nscscc_cpu.Iteration.Artifacts.{
  require_sha256, seen, allowed, with_candidate, names_another, candidates, existing_files,
  resolve_artifact_path, check_id, validate_artifact, validate_each, validate_list,
  validate_artifacts, the_only,
}

pub require_sha256-eq-ok : (v : Json) (s : String) → require_sha256 v ≡ ok s → v ≡ str s
unfolding require_sha256
require_sha256-eq-ok v s h = ground arith

module _ (H : Host) where
  -- Every file of the list exists below the iteration or the repository.
  abbrev AllInside : List H.Resolved → Type 0
  AllInside [] = Unit
  AllInside (p ∷ ps) = ((allowed H p ≡ true) × (H.is_file p ≡ true)) × AllInside ps

  AllInside-append :
      (ps : List H.Resolved) (p : H.Resolved)
      → AllInside ps
      → allowed H p ≡ true
      → H.is_file p ≡ true
      → AllInside (ps ++ p ∷ [])
  AllInside-append [] p h a f = ((a, f), tt)
  AllInside-append (q ∷ ps) p (here, later) a f = (here, AllInside-append ps p later a f)

  existing_files-AllInside :
      (ps : List H.Resolved) (cs : List (Option H.Resolved))
      → AllInside ps
      → AllInside (existing_files H ps cs)
  unfolding existing_files
  existing_files-AllInside ps [] h = h
  existing_files-AllInside ps (none ∷ cs) h = existing_files-AllInside ps cs h
  existing_files-AllInside ps (some p ∷ cs) h =
      existing_files-AllInside (with_candidate H ps p) cs (ground (arith, AllInside-append ps p h))

  the_only-AllInside :
      (ps : List H.Resolved) (p : H.Resolved)
      → AllInside ps
      → the_only H ps ≡ ok p
      → (allowed H p ≡ true) × (H.is_file p ≡ true)
  the_only-AllInside [] p h e = cc
  the_only-AllInside (q ∷ []) p (here, _) e =
      subst (λ x. (allowed H x ≡ true) × (H.is_file x ≡ true)) (cc e) here
  the_only-AllInside (q ∷ r ∷ ps) p h e = cc

  resolve_artifact_path-inside :
      (raw : List ℕ) (p : H.Resolved)
      → resolve_artifact_path H raw ≡ ok p
      → (allowed H p ≡ true) × (H.is_file p ≡ true)
  unfolding resolve_artifact_path
  resolve_artifact_path-inside raw p e =
      the_only-AllInside (existing_files H [] (candidates H raw)) p
        (existing_files-AllInside [] (candidates H raw) tt) e

  -- The entry declares an existing file inside the roots, with its size and its digest.
  pub record IsVerified (item : Json) (p : H.Resolved) : Type 0 where
    pub artifact : Fields
    pub object : item ≡ obj artifact
    pub raw_path : String
    pub path : get "path" artifact ≡ str raw_path
    pub resolved : resolve_artifact_path H (codes raw_path) ≡ ok p
    pub inside : allowed H p ≡ true
    pub file : H.is_file p ≡ true
    pub size : get "size" artifact ≡ int (pos (H.file_size p))
    pub digest : String
    pub sha256 : get "sha256" artifact ≡ str digest
    pub same_digest : H.sha256_file p ≡ codes digest

  validate_artifact-IsVerified :
      (paths : List H.Resolved) (ids : List String) (item : Json) (paths' : List H.Resolved)
      (ids' : List String)
      → validate_artifact H paths ids item ≡ ok (paths', ids')
      → (p : H.Resolved) × IsVerified item p × (seen H p paths ≡ false) × (paths' ≡ paths ++ p ∷ [])
  unfolding validate_artifact
  validate_artifact-IsVerified paths ids item paths' ids' h =
      let (artifact, e₁, h₁) = >>=-returns (require_object item) _ h in
      let (raw, e₂, h₂) = >>=-returns (require_nonempty_string (get "path" artifact)) _ h₁ in
      let (sha, e₃, h₃) = >>=-returns (require_sha256 (get "sha256" artifact)) _ h₂ in
      let (size, e₄, h₄) = >>=-returns (require_nonnegative_int (get "size" artifact)) _ h₃ in
      let (p, e₅, h₅) = >>=-returns (resolve_artifact_path H (codes raw)) _ h₄ in
      let (_, e₆, h₆) = >>=-returns (require (not (seen H p paths)) _) _ h₅ in
      let (ids₂, e₇, h₇) = >>=-returns (check_id ids (get "id" artifact)) _ h₆ in
      let (_, e₈, h₈) = >>=-returns (require (H.file_size p == size) _) _ h₇ in
      let (_, e₉, h₉) = >>=-returns (require (text_eq (H.sha256_file p) (codes sha)) _) _ h₈ in
      let fresh = require-eq-ok _ _ e₆ in
      let (inside, file) = resolve_artifact_path-inside (codes raw) p e₅ in
      let same_size = (==_iff _ _).0 (require-eq-ok _ _ e₈) in
      (
        p,
        record {
          artifact = artifact;
          object = require_object-eq-ok item artifact e₁;
          raw_path = raw;
          path = require_nonempty_string-eq-ok _ raw e₂;
          resolved = e₅;
          inside = inside;
          file = file;
          size = rw same_size (require_nonnegative_int-eq-ok _ size e₄);
          digest = sha;
          sha256 = require_sha256-eq-ok _ sha e₃;
          same_digest = text_eq-eq _ _ (require-eq-ok _ _ e₉);
        },
        ground arith,
        sym (ap (λ (x : List H.Resolved × List String). x.0) (ok-injective _ _ h₉)),
      )

  -- Each entry is verified, and none resolves to a file of an entry before it.
  abbrev pub AllVerified : List H.Resolved → Items → Type 0
  AllVerified paths nil = Unit
  AllVerified paths (cons item rest) =
      (p : H.Resolved) × IsVerified item p
      × (seen H p paths ≡ false)
      × AllVerified (paths ++ p ∷ []) rest

  validate_each-AllVerified :
      (xs : Items) (paths : List H.Resolved) (ids : List String) (n : ℕ)
      → validate_each H paths ids xs ≡ ok n
      → (n ≡ length (items xs)) × AllVerified paths xs
  unfolding validate_each
  validate_each-AllVerified nil paths ids n h = (cc h, tt)
  validate_each-AllVerified (cons item rest) paths ids n h =
      let ((paths', ids'), e, h₁) = >>=-returns (validate_artifact H paths ids item) _ h in
      let (m, f, h₂) = >>=-returns (validate_each H paths' ids' rest) _ h₁ in
      let (p, verified, fresh, grown) = validate_artifact-IsVerified paths ids item paths' ids' e in
      let (count, below) = validate_each-AllVerified rest paths' ids' m f in
      (cc (h₂, count), (p, verified, fresh, rw grown at below))

  list_verified :
      (v : Json) (n : ℕ)
      → validate_list H v ≡ ok n
      → (xs : Items) × (v ≡ arr xs) × (n ≡ length (items xs)) × AllVerified [] xs
  unfolding validate_list
  list_verified (arr xs) n h =
      let (count, verified) = validate_each-AllVerified xs [] [] n h in (xs, refl, count, verified)
  list_verified _ n h = cc

  -- When artifacts.json is accepted, the count returned is the number of its entries; each entry
  -- names an existing file below the iteration or the repository whose size and SHA-256 digest are
  -- the declared ones, and no two entries name the same file.
  pub validate_artifacts-AllVerified :
      (iteration_id : String) (document : Fields) (n : ℕ)
      → validate_artifacts H iteration_id (obj document) ≡ ok n
      → (xs : Items) × (get "artifacts" document ≡ arr xs)
        × (n ≡ length (items xs))
        × AllVerified [] xs
  unfolding validate_artifacts require_object validate_list
  validate_artifacts-AllVerified iteration_id document n h =
      let (_, _, h₁) =
        >>=-returns (require (not (names_another iteration_id (get "iteration_id" document))) _) _
          h in
      list_verified (get "artifacts" document) n h₁
