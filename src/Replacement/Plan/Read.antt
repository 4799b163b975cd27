-- ===== src/Replacement/Plan/Read.antt =====
-- The path, the digests and the object that a replacement spec gives, as texts and fields of the
-- document.
use nscscc_cpu.Base.{
  is_empty, contains, any, ltb, has_prefix, is_hex_text, same_set, ℕ, ◌||◌, String, List, codes,
  text_eq, text_elem, ◌≡◌, refl, sym, ap,
}
use nscscc_cpu.Result.{ok, require, refuse_if, >>=-returns, ok-injective}
use nscscc_cpu.Json.{str, obj, keys, Json, Fields}
use nscscc_cpu.Replacement.Golden.{path_parts, as_posix, checked_repo_git_path}
use nscscc_cpu.Replacement.Plan.{required_keys, checked_digest, replacement_fields}

-- A path, a digest and an object are the text and the object of the document.
pub checked_path-text :
    (v : Json) (path : List ℕ)
    → checked_repo_git_path v ≡ ok path
    → (s : String) × (v ≡ str s) × (path ≡ codes s)
unfolding checked_repo_git_path
checked_path-text (str s) path h =
    let (_, _, h1) =
      >>=-returns (refuse_if (is_empty (codes s)) "must be a non-empty repo-relative POSIX path") _
        h in
    let (_, _, h2) =
      >>=-returns
        (refuse_if (contains (codes "\\") (codes s) || any (λ c. ltb c 32) (codes s))
          "invalid path")
        _ h1 in
    let (_, _, h3) =
      >>=-returns
        (refuse_if
          (has_prefix (codes "/") (codes s)
            || has_prefix (codes ":") (codes s)
            || text_elem (codes "..") (path_parts (codes s)))
          "invalid path")
        _ h2 in
    let (_, _, h4) =
      >>=-returns (require (text_eq (as_posix (codes s)) (codes s)) "invalid path") _ h3 in
    (s, refl, sym (ok-injective (codes s) path h4))
checked_path-text _ path h = cc

pub checked_digest-text :
    (message : String) (v : Json) (digest : String)
    → checked_digest message v ≡ ok digest
    → v ≡ str digest
unfolding checked_digest
checked_digest-text message (str s) digest h =
    let (_, _, h1) = >>=-returns (require (is_hex_text 64 s) message) (λ _. ok s) h in
    ap str (ok-injective s digest h1)
checked_digest-text message _ digest h = cc

pub replacement_fields-object :
    (item : Json) (raw : Fields) → replacement_fields item ≡ ok raw → item ≡ obj raw
replacement_fields-object (obj fs) raw h =
    let (_, _, h1) =
      >>=-returns
        (require (same_set (keys fs) required_keys)
          "replacement must contain exactly the required keys")
        (λ _. ok fs) h in
    ap obj (ok-injective fs raw h1)
replacement_fields-object _ raw h = cc
