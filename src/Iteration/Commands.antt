-- ===== src/Iteration/Commands.antt =====
-- `_has_evidence`, `_parse_iso_timestamp` and `_validate_commands` of tools/refactor.py.
pub mod Counted
use nscscc_cpu.Base.{
  ℕ, zero, suc, ◌≡◌, Bool, true, false, not, ◌&&◌, ◌||◌, String, List, [], ◌∷◌, codes, has_ink,
  is_nonblank, is_empty, replace_char, ltb_ℤ, ℤ, pos, if◌then◌else◌, Option, none, some, ◌==◌,
  str_eq, same_truth,
}
use nscscc_cpu.Result.{Result, ok, err, refused, ◌>>=◌, ◌>>◌, require, refuse_if}
use nscscc_cpu.Json.{
  Json, null, bool, int, float, str, arr, obj, Items, nil, cons, Fields, end, field, get, has_key,
  is_finite_nonnegative,
}
use nscscc_cpu.Iteration.Require.{require_object, require_nonempty_string, index}
use nscscc_cpu.Iteration.Host.{Host}

unfoldable mutual
  -- A non-blank text, a non-empty list of evidence, or a non-empty object.
  pub has_evidence : Json → Bool
  has_evidence (str s) = is_nonblank s
  has_evidence (arr xs) = has_evidence_items xs
  has_evidence (obj fs) = has_field fs
  has_evidence null = false
  has_evidence (bool b) = false
  has_evidence (int n) = false
  has_evidence (float x) = false

  -- `bool(value) and all(_has_evidence(item) for item in value)`
  pub has_evidence_items : Items → Bool
  has_evidence_items nil = false
  has_evidence_items (cons x nil) = has_evidence x
  has_evidence_items (cons x (cons y ys)) = has_evidence x && has_evidence_items (cons y ys)

  pub has_field : Fields → Bool
  has_field end = false
  has_field (field k v fs) = true

-- A non-empty list of non-empty strings.
abbrev pub is_string : Json → Bool
is_string (str s) = not (str_eq s "")
is_string _ = false

abbrev pub all_strings : Items → Bool
all_strings nil = true
all_strings (cons x xs) = is_string x && all_strings xs

abbrev pub is_argv : Json → Bool
is_argv (arr nil) = false
is_argv (arr xs) = all_strings xs
is_argv _ = false

-- `isinstance(value, int) and not isinstance(value, bool)`
abbrev pub is_integer : Json → Bool
is_integer (int n) = true
is_integer _ = false

-- The test of `elapsed_seconds`.
abbrev pub is_duration : Json → Bool
is_duration (int n) = not (ltb_ℤ n (pos 0))
is_duration (float x) = is_finite_nonnegative x
is_duration _ = false

module _ (H : Host) where
  open H use {Moment, fromisoformat, has_offset, before, json_loads}

  unfoldable pub parse_iso_timestamp : Json → Result Moment
  parse_iso_timestamp value = do
    text ← require_nonempty_string value
    elim (fromisoformat (replace_char b'Z' (codes "+00:00") (codes text))) [
      | none ↦ err (refused "must be an ISO-8601 timestamp")
      | some parsed ↦ do require (has_offset parsed) "must include a timezone"; ok parsed
    ]

  unfoldable pub check_times : Fields → Result (Unit {0})
  check_times record_ =
      if has_key "started_at" record_
      then (do
        started ← (do v ← index "started_at" record_; parse_iso_timestamp v)
        finished ← (do v ← index "finished_at" record_; parse_iso_timestamp v)
        refuse_if (before finished started) "finished_at precedes started_at")
      else ok tt

  unfoldable pub check_elapsed : Fields → Result (Unit {0})
  check_elapsed record_ =
      if has_key "elapsed_seconds" record_
      then (do
        elapsed ← index "elapsed_seconds" record_
        require (is_duration elapsed) "elapsed_seconds must be a finite nonnegative number")
      else ok tt

  -- The body of the loop on a line that is not blank.
  unfoldable pub validate_record : Json → Result (Unit {0})
  validate_record value = do
    record_ ← require_object value
    require (is_argv (get "argv" record_)) "argv must be a non-empty string list"
    require_nonempty_string (get "cwd" record_)
    require (is_integer (get "exit_code" record_)) "exit_code must be an integer"
    require (same_truth (has_key "started_at" record_) (has_key "finished_at" record_))
        "must provide both started_at and finished_at"
    require
        (has_key "started_at" record_ && has_key "finished_at" record_
          || has_key "elapsed_seconds" record_)
        "requires started_at/finished_at or elapsed_seconds"
    check_times record_
    check_elapsed record_
    require (has_evidence (get "evidence" record_)) "evidence must be non-empty"

  unfoldable pub parse_record : List ℕ → Result Json
  parse_record line = elim (json_loads line) [
    | none ↦ err (refused "commands.jsonl")
    | some value ↦ ok value
  ]

  -- The number of records; blank lines are skipped.
  unfoldable pub count_records : List (List ℕ) → Result ℕ
  count_records [] = ok 0
  count_records (line ∷ lines) =
      let rest = count_records lines in
      if not (has_ink line)
      then rest
      else (do value ← parse_record line; validate_record value; records ← rest; ok (suc records))

  -- `lines` are the lines of commands.jsonl, as the file object yields them.
  unfoldable pub validate_commands : List (List ℕ) → Result ℕ
  validate_commands lines = do
    records ← count_records lines
    refuse_if (records == 0) "commands.jsonl must contain at least one command record"
    ok records
