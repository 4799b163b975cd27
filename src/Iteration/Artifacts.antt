-- ===== src/Iteration/Artifacts.antt =====
-- `_resolve_artifact_path` and `_validate_artifacts` of tools/refactor.py.
pub mod Verified
use nscscc_cpu.Base.{
  ℕ, zero, suc, Bool, true, false, not, ◌&&◌, ◌||◌, String, str_eq, List, [], ◌∷◌, ◌++◌, codes,
  text_eq, any, elem, is_hex_text, ◌==◌, if◌then◌else◌, Option, none, some,
}
use nscscc_cpu.Result.{Result, ok, err, refused, ◌>>=◌, ◌>>◌, require, refuse_if}
use nscscc_cpu.Json.{
  Json, null, bool, int, float, str, arr, obj, Items, nil, cons, Fields, get, is_text, is_null,
}
use nscscc_cpu.Iteration.Require.{require_object, require_nonempty_string, require_nonnegative_int}
use nscscc_cpu.Iteration.Host.{Host}

-- `isinstance(value, str)` and 64 lowercase hexadecimal digits; the text if so.
unfoldable pub require_sha256 : Json → Result String
require_sha256 (str s) = do require (is_hex_text 64 s) "must be a lowercase SHA-256 digest"; ok s
require_sha256 _ = err (refused "must be a lowercase SHA-256 digest")

-- The id, if there is one, must be new.
unfoldable pub check_id : List String → Json → Result (List String)
check_id ids value = if is_null value then ok ids else (do
  id ← require_nonempty_string value
  refuse_if (elem id ids) "duplicate artifact id"
  ok (ids ++ id ∷ []))

-- `document.get("iteration_id") is not None and document.get("iteration_id") != iteration_id`
abbrev pub names_another : String → Json → Bool
names_another iteration_id value = not (is_null value) && not (is_text iteration_id value)

module _ (H : Host) where
  open H use {
    Resolved, same, is_absolute, resolve_absolute, resolve_in_iteration, resolve_in_repository,
    within_iteration, within_repository, is_file, file_size, sha256_file,
  }

  abbrev pub seen : Resolved → List Resolved → Bool
  seen p ps = any (same p) ps

  abbrev pub allowed : Resolved → Bool
  allowed p = within_iteration p || within_repository p

  -- What each declared path may mean; `none` where it cannot be resolved.
  abbrev pub candidates : List ℕ → List (Option Resolved)
  candidates raw =
      if is_absolute raw
      then resolve_absolute raw ∷ []
      else resolve_in_iteration raw ∷ resolve_in_repository raw ∷ []

  -- One candidate that resolves: known, outside the roots, a file, or something else.
  abbrev pub with_candidate : List Resolved → Resolved → List Resolved
  with_candidate existing p =
      if seen p existing
      then existing
      else if not (allowed p)
      then existing
      else if is_file p
      then existing ++ p ∷ []
      else existing

  -- The loop over the candidates.
  unfoldable pub existing_files : List Resolved → List (Option Resolved) → List Resolved
  existing_files existing [] = existing
  existing_files existing (none ∷ rest) = existing_files existing rest
  existing_files existing (some p ∷ rest) = existing_files (with_candidate existing p) rest

  abbrev pub the_only : List Resolved → Result Resolved
  the_only [] =
      err (refused "artifact path does not name an existing file inside the workspace or iteration")
  the_only (p ∷ []) = ok p
  the_only (p ∷ q ∷ ps) = err (refused "artifact path is ambiguous between workspace and iteration")

  unfoldable pub resolve_artifact_path : List ℕ → Result Resolved
  resolve_artifact_path raw = the_only (existing_files [] (candidates raw))

  -- One round of the loop: the paths and ids seen after it.
  unfoldable pub validate_artifact :
      List Resolved → List String → Json → Result (List Resolved × List String)
  validate_artifact paths ids item = do
    artifact ← require_object item
    raw_path ← require_nonempty_string (get "path" artifact)
    expected_sha ← require_sha256 (get "sha256" artifact)
    expected_size ← require_nonnegative_int (get "size" artifact)
    resolved ← resolve_artifact_path (codes raw_path)
    refuse_if (seen resolved paths) "path duplicates another artifact"
    ids' ← check_id ids (get "id" artifact)
    require (file_size resolved == expected_size) "size mismatch"
    require (text_eq (sha256_file resolved) (codes expected_sha)) "sha256 mismatch"
    ok (paths ++ resolved ∷ [], ids')

  -- The number of artifacts validated.
  unfoldable pub validate_each : List Resolved → List String → Items → Result ℕ
  validate_each paths ids nil = ok 0
  validate_each paths ids (cons item rest) = do
    now ← validate_artifact paths ids item
    n ← validate_each now.0 now.1 rest
    ok (suc n)

  unfoldable pub validate_list : Json → Result ℕ
  validate_list (arr xs) = validate_each [] [] xs
  validate_list _ = err (refused "artifacts.json.artifacts must be a list")

  unfoldable pub validate_artifacts : String → Json → Result ℕ
  validate_artifacts iteration_id value = do
    document ← require_object value
    refuse_if (names_another iteration_id (get "iteration_id" document))
        "artifacts.json iteration_id does not match summary.iteration_id"
    validate_list (get "artifacts" document)
