-- ===== src/Replacement/Plan/Bound.antt =====
-- What a plan that is loaded binds, replacement by replacement: a locked target, the committed bytes
-- with their digests, and a text that passes the tests.
use nscscc_cpu.Base.{
  ℕ, true, false, not, ◌&&◌, ◌||◌, String, str_eq, eq_iff, List, [], ◌∷◌, ◌++◌, codes, text_eq,
  text_eq-eq, text_elem, has_suffix, any-append, Option, none, some, ◌≡◌, refl, sym, ap, ◌∙◌, subst,
  arith, or-false_parts, and-true_parts,
}
use nscscc_cpu.Result.{
  ok, require, refuse_if, >>=-returns, refuse_if-ok, require-eq-ok, ok-injective,
}
use nscscc_cpu.Json.{str, obj, Json, Fields, get}
use nscscc_cpu.Replacement.Git.{git_regular_blob_entry}
use nscscc_cpu.Replacement.Golden.{path_name, checked_repo_git_path, texts_distinct}
use nscscc_cpu.Replacement.Content.{validate_replacement_verilog}
use nscscc_cpu.Replacement.Plan.{
  Repository, ComponentReplacement, checked_digest, replacement_fields, git_blob, or_refuse,
  targets, sources, bind_payloads, load_replacement,
}
use nscscc_cpu.Replacement.Plan.Read.{
  checked_path-text, checked_digest-text, replacement_fields-object,
}

text_eq_sym : (s t : List ℕ) → text_eq s t ≡ text_eq t s
text_eq_sym [] [] = refl
text_eq_sym [] (d ∷ t) = refl
text_eq_sym (c ∷ s) [] = refl
text_eq_sym (c ∷ s) (d ∷ t) = let ih = text_eq_sym s t in ground arith

pub or_refuse-found :
    {A : Type 0} (message : String) (o : Option A) {a : A} → or_refuse message o ≡ ok a → o ≡ some a
or_refuse-found message none h = cc
or_refuse-found message (some a) h = cc

-- A text that is new, put behind texts that differ.
texts_distinct-append :
    (ts : List (List ℕ)) (t : List ℕ)
    → texts_distinct ts ≡ true
    → text_elem t ts ≡ false
    → texts_distinct (ts ++ t ∷ []) ≡ true
texts_distinct-append [] t h k = refl
texts_distinct-append (s ∷ ts) t h k =
    let (a, b) = and-true_parts (not (text_elem s ts)) (texts_distinct ts) h in
    let (c, d) = or-false_parts (text_eq t s) (text_elem t ts) k in
    let later = texts_distinct-append ts t b d in
    let apart : text_eq s t ≡ false = text_eq_sym s t ∙ c in
    rw (any-append (text_eq s) ts (t ∷ []), apart, later) (ground arith)

module _ (R : Repository) where
  targets-append :
      (rs : List (ComponentReplacement R.Byte)) (r : ComponentReplacement R.Byte)
      → targets R (rs ++ r ∷ []) ≡ targets R rs ++ r.target ∷ []
  targets-append [] r = refl
  targets-append (x ∷ rs) r = ap (λ ts. x.target ∷ ts) (targets-append rs r)

  sources-append :
      (rs : List (ComponentReplacement R.Byte)) (r : ComponentReplacement R.Byte)
      → sources R (rs ++ r ∷ []) ≡ sources R rs ++ r.source ∷ []
  sources-append [] r = refl
  sources-append (x ∷ rs) r = ap (λ ts. x.source ∷ ts) (sources-append rs r)

  -- The replacement is the item of the document: its paths and its digests.
  abbrev pub IsStated : Json → ComponentReplacement R.Byte → Type 0
  IsStated item r =
      (raw : Fields) × (item ≡ obj raw)
      × (target : String) × (get "target" raw ≡ str target)
      × (r.target ≡ codes target)
      × (source : String) × (get "source" raw ≡ str source)
      × (r.source ≡ codes source)
      × (get "base_sha256" raw ≡ str r.base_sha256)
      × (get "replacement_sha256" raw ≡ str r.replacement_sha256)

  module _ (head base_commit : List ℕ) (locked : List (List ℕ)) where
    -- The committed bytes of a replacement and of its target, their digests, and the test of the text.
    abbrev pub IsBound : ComponentReplacement R.Byte → Type 0
    IsBound r =
        (R.blob head r.source ≡ some r.payload)
        × (R.sha256_bytes r.payload ≡ r.replacement_sha256)
        × (base : List R.Byte) × (R.blob base_commit r.target ≡ some base)
        × (R.sha256_bytes base ≡ r.base_sha256)
        × (validate_replacement_verilog R.characters (R.decode r.payload) (head ++ b':' ∷ r.source)
              (some (R.decode base))
            ≡ ok tt)

    -- Its target is a locked Verilog file of the same name.
    abbrev pub IsTargeted : ComponentReplacement R.Byte → Type 0
    IsTargeted r =
        (text_elem r.target locked ≡ true)
        × (has_suffix (codes ".v") r.target ≡ true)
        × (path_name r.source ≡ path_name r.target)

    abbrev pub AllBound : List (ComponentReplacement R.Byte) → Type 0
    AllBound [] = Unit
    AllBound (r ∷ rs) = IsBound r × IsTargeted r × AllBound rs

    AllBound-append :
        (rs : List (ComponentReplacement R.Byte)) (r : ComponentReplacement R.Byte)
        → AllBound rs
        → IsBound r
        → IsTargeted r
        → AllBound (rs ++ r ∷ [])
    AllBound-append [] r h b t = (b, t, tt)
    AllBound-append (x ∷ rs) r (xb, xt, h) b t = (xb, xt, AllBound-append rs r h b t)

    bind_payloads-IsBound :
        (raw : Fields) (target source : List ℕ) (r : ComponentReplacement R.Byte)
        → bind_payloads R head base_commit locked raw target source ≡ ok r
        → IsBound r
          × (r.target ≡ target)
          × (r.source ≡ source)
          × (get "base_sha256" raw ≡ str r.base_sha256)
          × (get "replacement_sha256" raw ≡ str r.replacement_sha256)
    unfolding bind_payloads
    bind_payloads-IsBound raw target source r h =
        let (base_sha, m, h1) =
          >>=-returns (checked_digest "base_sha256 is invalid" (get "base_sha256" raw)) _ h in
        let (sha, n, h2) =
          >>=-returns
            (checked_digest "replacement_sha256 is invalid" (get "replacement_sha256" raw)) _ h1 in
        let (base, b, h3) = >>=-returns (git_blob R base_commit target) _ h2 in
        let (_, c, h4) =
          >>=-returns
            (require (str_eq base_sha (R.sha256_bytes base)) "replacement base blob mismatch") _
            h3 in
        let (entry, _, h5) =
          >>=-returns (git_regular_blob_entry (R.listing head source) source) _ h4 in
        let (payload, e, h6) = >>=-returns (git_blob R head source) _ h5 in
        let (_, f, h7) =
          >>=-returns
            (require (str_eq sha (R.sha256_bytes payload)) "replacement source blob mismatch") _
            h6 in
        let (u, g, h8) =
          >>=-returns
            (validate_replacement_verilog R.characters (R.decode payload) (head ++ b':' ∷ source)
              (some (R.decode base)))
            _ h7 in
        let made = ok-injective _ r h8 in
        subst
          (λ x.
            IsBound x
            × (x.target ≡ target)
            × (x.source ≡ source)
            × (get "base_sha256" raw ≡ str x.base_sha256)
            × (get "replacement_sha256" raw ≡ str x.replacement_sha256))
          made
          (
            (
              or_refuse-found "git cat-file blob failed" (R.blob head source) e,
              sym (
                  (eq_iff sha (R.sha256_bytes payload)).0
                    (require-eq-ok (str_eq sha (R.sha256_bytes payload)) _ f)),
              base,
              or_refuse-found "git cat-file blob failed" (R.blob base_commit target) b,
              sym (
                  (eq_iff base_sha (R.sha256_bytes base)).0
                    (require-eq-ok (str_eq base_sha (R.sha256_bytes base)) _ c)),
              g,
            ),
            refl,
            refl,
            checked_digest-text "base_sha256 is invalid" (get "base_sha256" raw) base_sha m,
            checked_digest-text "replacement_sha256 is invalid" (get "replacement_sha256" raw) sha
                n,
          )

    -- What one turn of the loop adds.
    pub load_replacement-IsBound :
        (before : List (ComponentReplacement R.Byte)) (item : Json)
        (r : ComponentReplacement R.Byte)
        → load_replacement R head base_commit locked before item ≡ ok r
        → IsBound r
          × IsTargeted r
          × (text_elem r.target (targets R before) ≡ false)
          × (text_elem r.source (sources R before) ≡ false)
          × IsStated item r
    unfolding load_replacement
    load_replacement-IsBound before item r h =
        let (raw, i, h1) = >>=-returns (replacement_fields item) _ h in
        let (target, j, h2) = >>=-returns (checked_repo_git_path (get "target" raw)) _ h1 in
        let (source, k, h3) = >>=-returns (checked_repo_git_path (get "source" raw)) _ h2 in
        let (_, a, h4) =
          >>=-returns
            (require (text_elem target locked && has_suffix (codes ".v") target)
              "replacement target is not a locked Verilog file")
            _ h3 in
        let (_, b, h5) =
          >>=-returns
            (require (text_eq (path_name source) (path_name target))
              "replacement source basename must match target")
            _ h4 in
        let (_, c, h6) =
          >>=-returns
            (refuse_if (text_elem target (targets R before) || text_elem source (sources R before))
              "replacement spec has a duplicate target or source")
            _ h5 in
        let (bound, t, s, m, n) = bind_payloads-IsBound raw target source r h6 in
        let (l, v) =
          and-true_parts (text_elem target locked) (has_suffix (codes ".v") target)
            (require-eq-ok (text_elem target locked && has_suffix (codes ".v") target) _ a) in
        let same =
          text_eq-eq (path_name source) (path_name target)
            (require-eq-ok (text_eq (path_name source) (path_name target)) _ b) in
        let (x, y) =
          or-false_parts (text_elem target (targets R before)) (text_elem source (sources R before))
            (refuse_if-ok
              (text_elem target (targets R before) || text_elem source (sources R before)) _ c) in
        let (target_text, target_read, target_is) = checked_path-text (get "target" raw) target j in
        let (source_text, source_read, source_is) = checked_path-text (get "source" raw) source k in
        (
          bound,
          (
            subst (λ p. text_elem p locked ≡ true) (sym t) l,
            subst (λ p. has_suffix (codes ".v") p ≡ true) (sym t) v,
            ap path_name s ∙ same ∙ sym (ap path_name t),
          ),
          subst (λ p. text_elem p (targets R before) ≡ false) (sym t) x,
          subst (λ p. text_elem p (sources R before) ≡ false) (sym s) y,
          (
            raw,
            replacement_fields-object item raw i,
            target_text,
            target_read,
            t ∙ target_is,
            source_text,
            source_read,
            s ∙ source_is,
            m,
            n,
          ),
        )

    -- What the loop has accepted.
    abbrev pub IsAccepted : List (ComponentReplacement R.Byte) → Type 0
    IsAccepted rs =
        AllBound rs
        × (texts_distinct (targets R rs) ≡ true)
        × (texts_distinct (sources R rs) ≡ true)

    pub IsAccepted-append :
        (rs : List (ComponentReplacement R.Byte)) (r : ComponentReplacement R.Byte)
        → IsAccepted rs
        → IsBound r
        → IsTargeted r
        → text_elem r.target (targets R rs) ≡ false
        → text_elem r.source (sources R rs) ≡ false
        → IsAccepted (rs ++ r ∷ [])
    IsAccepted-append rs r (all, ts, ss) b t x y = (
      AllBound-append rs r all b t,
      ap texts_distinct (targets-append rs r) ∙ texts_distinct-append (targets R rs) r.target ts x,
      ap texts_distinct (sources-append rs r) ∙ texts_distinct-append (sources R rs) r.source ss y,
    )
