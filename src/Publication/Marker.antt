-- ===== src/Publication/Marker.antt =====
-- The publication markers of tools/refactor.py: `remove_stale_report_publication`,
-- `write_publication_marker`, `require_report_publication`, and the order in which a command calls
-- them.
pub mod Required
pub mod Names
pub mod Accepted
pub mod Ordered
use nscscc_cpu.Base.{
  ℕ, Bool, true, false, not, ◌&&◌, ◌||◌, String, str_eq, List, [], ◌∷◌, ◌++◌, Option, none, some,
  codes, all, leb, length, ◌==◌, is_hex_text, same_set, if◌then◌else◌, pos,
}
use nscscc_cpu.Json.{Json, int, str, obj, Fields, end, field, keys, py_eq}
use nscscc_cpu.Locks.Disk.{Attempt, done, failed, Failure, refused, os_error}
use nscscc_cpu.Publication.Dir.{
  Node, regular, link, other, Dir, set_name, Run, returns, raises, changes, continue, and_then,
}
use nscscc_cpu.Publication.Replace.{Calls, temporary_name, reject_link, both_done, write_json}

-- `json_payload`, the strict decoder of `read_json_file_with_sha256` (`none` where it raises), and
-- the hexadecimal digest of some bytes.
pub record Tools : Type 1 where
  pub Byte : Type 0
  pub dumps : Json → List Byte
  pub loads : List Byte → Option Json
  pub sha256_bytes : List Byte → String

-- `[A-Za-z0-9]` and `[A-Za-z0-9._-]`
abbrev pub is_alphanumeric : ℕ → Bool
is_alphanumeric c = leb b'a' c && leb c b'z' || leb b'A' c && leb c b'Z' || leb b'0' c && leb c b'9'

abbrev pub is_id_character : ℕ → Bool
is_id_character c = is_alphanumeric c || c == b'.' || c == b'_' || c == b'-'

-- ITERATION_ID_PATTERN against a whole text
abbrev pub is_iteration_id : List ℕ → Bool
is_iteration_id [] = false
is_iteration_id (c ∷ rest) = is_alphanumeric c && all is_id_character rest && leb (length rest) 79

abbrev pub accepts : Bool → String → Attempt (Unit {0})
accepts true message = done tt
accepts false message = failed (refused message)

-- What identifies a publication. `report_name` is the last component of the report's path.
pub record Publication : Type 0 where
  pub report_name : String
  pub command : String
  pub iteration_id : String
  pub publication_id : String
  pub publisher_sha256 : String

abbrev pub report_file : Publication → List ℕ
report_file p = codes p.report_name

-- `publication_marker_path`
abbrev pub marker_file : Publication → List ℕ
marker_file p = codes p.report_name ++ codes ".publication.json"

abbrev pub marker_fields : Publication → String → Fields
marker_fields p report_sha256 = field "schema_version" (int (pos 1)) (
    field "iteration_id" (str p.iteration_id) (
      field "operation" (str p.command) (
        field "publication_id" (str p.publication_id) (
          field "report_name" (str p.report_name) (
            field "report_sha256" (str report_sha256)
              (field "publisher_sha256" (str p.publisher_sha256) end))))))

-- The process and the random token of the name of a temporary file.
pub record Token : Type 0 where
  pub pid : List ℕ
  pub token : List ℕ

abbrev pub temporary_for : Token → List ℕ → List ℕ
temporary_for t name = temporary_name name t.pid t.token

-- One turn of the loop of `remove_stale_report_publication`; the flag says that `unlink` fails.
unfoldable pub remove_node :
    {Byte : Type 0} → Bool → List ℕ → Option (Node Byte) → Dir Byte → Run Byte (Unit {0})
remove_node unlink_fails name none d = returns tt d
remove_node unlink_fails name (some link) d =
    raises (refused "report publication cleanup must not contain a symlink or junction") d
remove_node unlink_fails name (some other) d =
    raises (refused "report publication path must be a regular file") d
remove_node unlink_fails name (some (regular bytes)) d =
    if unlink_fails then raises os_error d else changes (set_name name none d)

-- The marker goes first.
unfoldable pub remove_stale_report_publication :
    {Byte : Type 0} → Bool → Bool → Publication → Dir Byte → Run Byte (Unit {0})
remove_stale_report_publication marker_stays report_stays p d =
    and_then (remove_node marker_stays (marker_file p) (d (marker_file p)) d)
      (λ u e. remove_node report_stays (report_file p) (e (report_file p)) e)

abbrev pub attempt_then : {A B : Type 0} → Attempt A → (A → Attempt B) → Attempt B
attempt_then (done a) next = next a
attempt_then (failed why) next = failed why

abbrev pub marker_keys : List String
marker_keys =
    "schema_version" ∷ "iteration_id" ∷ "operation" ∷ "publication_id" ∷ "report_name"
    ∷ "report_sha256" ∷ "publisher_sha256" ∷ []

module _ (T : Tools) where
  -- `sha256_file`, of a name that is no link.
  abbrev pub sha256_node : Option (Node T.Byte) → Attempt String
  sha256_node (some (regular bytes)) = done (T.sha256_bytes bytes)
  sha256_node _ = failed os_error

  abbrev pub json_sha256 : Json → String
  json_sha256 value = T.sha256_bytes (T.dumps value)

  abbrev pub check_digest : String → String → Attempt String → Attempt (Unit {0})
  check_digest message expected (failed why) = failed why
  check_digest message expected (done actual) = accepts (str_eq actual expected) message

  -- The tests of `write_publication_marker` before it writes.
  unfoldable pub check_publication : Publication → Json → Dir T.Byte → Attempt (Unit {0})
  check_publication p report d =
      both_done (accepts (is_iteration_id (codes p.publication_id)) "invalid report publication id")
        (both_done
          (reject_link "report publication must not contain a symlink or junction"
            (d (report_file p)))
          (both_done
            (accepts (is_hex_text 64 p.publisher_sha256) "report publisher SHA256 is invalid")
            (both_done
              (check_digest "report changed before publication marker" (json_sha256 report)
                (sha256_node (d (report_file p))))
              (accepts (is_iteration_id (codes p.iteration_id)) "invalid iteration id"))))

  -- The marker is read again, for its digest.
  abbrev pub compare_marker : Publication → Json → Dir T.Byte → Run T.Byte String
  compare_marker p report e =
      let digest = json_sha256 (obj (marker_fields p (json_sha256 report))) in
      record {
        outcome =
            attempt_then
              (check_digest "publication marker changed while being written" digest
                (sha256_node (e (marker_file p))))
              (λ w. done digest);
        disk = e;
        seen = [];
      }

  -- The digest of the marker that is written.
  unfoldable pub write_publication_marker :
      Calls → Token → Publication → Json → Dir T.Byte → Run T.Byte String
  write_publication_marker c t p report d =
      let marker = obj (marker_fields p (json_sha256 report)) in
      continue (check_publication p report d)
        (λ u.
          and_then
            (write_json c (marker_file p) (temporary_for t (marker_file p)) (T.dumps marker) d)
            (λ v e. compare_marker p report e))
        d

  -- `read_json_file_with_sha256`
  abbrev pub read_node : Option (Node T.Byte) → Attempt (Option Json × List T.Byte)
  read_node (some (regular bytes)) = done (T.loads bytes, bytes)
  read_node _ = failed (refused "invalid JSON")

  -- The decoded marker against the expected one.
  abbrev pub check_marker : Publication → Json → String → Option Json → Attempt Fields
  check_marker p report report_sha256 (some (obj marker)) =
      if not (same_set (keys marker) marker_keys)
      then failed (refused "publication marker has an invalid schema")
      else if not (is_iteration_id (codes p.iteration_id))
      then failed (refused "invalid iteration id")
      else if not (py_eq (obj marker) (obj (marker_fields p report_sha256)))
          || not (str_eq report_sha256 (json_sha256 report))
      then failed (refused "report publication marker mismatch")
      else done marker
  check_marker p report report_sha256 none = failed (refused "invalid JSON")
  check_marker p report report_sha256 (some _) =
      failed (refused "publication marker has an invalid schema")

  -- The tests of `require_report_publication` before it reads the marker.
  unfoldable pub check_published : Publication → String → Dir T.Byte → Attempt (Unit {0})
  check_published p report_sha256 d =
      both_done (accepts (is_iteration_id (codes p.publication_id)) "invalid report publication id")
        (both_done
          (reject_link "published report must not contain a symlink or junction"
            (d (report_file p)))
          (both_done
            (reject_link "report publication marker must not contain a symlink or junction"
              (d (marker_file p)))
            (both_done
              (accepts (is_hex_text 64 p.publisher_sha256) "report publisher SHA256 is invalid")
              (check_digest "published report changed before consumption" report_sha256
                (sha256_node (d (report_file p)))))))

  -- The marker and its digest.
  unfoldable pub require_report_publication :
      Publication → Json → String → Dir T.Byte → Attempt (Fields × String)
  require_report_publication p report report_sha256 d =
      attempt_then (check_published p report_sha256 d) (λ u.
        attempt_then (read_node (d (marker_file p))) (λ read.
          attempt_then (check_marker p report report_sha256 read.0)
            (λ marker. done (marker, T.sha256_bytes read.1))))

  -- Behind the writing of the report: it is compared, and the marker follows.
  abbrev pub compare_and_mark : Calls → Token → Publication → Json → Dir T.Byte → Run T.Byte String
  compare_and_mark c t p report f =
      continue
        (check_digest "chiplab overlay report changed during publication" (json_sha256 report)
          (sha256_node (f (report_file p))))
        (λ w. write_publication_marker c t p report f) f

  -- The end of a command.
  unfoldable pub write_and_mark :
      Calls → Token → Calls → Token → Publication → Json → Dir T.Byte → Run T.Byte String
  write_and_mark c t c' t' p report e =
      and_then (write_json c (report_file p) (temporary_for t (report_file p)) (T.dumps report) e)
        (λ v f. compare_and_mark c' t' p report f)

  -- A command's publication: the stale one goes, then the end of the command. What the command does
  -- between the two is left out.
  unfoldable pub publish_report :
      Bool
      → Bool
      → Calls
      → Token
      → Calls
      → Token
      → Publication
      → Json
      → Dir T.Byte
      → Run T.Byte String
  publish_report marker_stays report_stays c t c' t' p report d =
      and_then (remove_stale_report_publication marker_stays report_stays p d)
        (λ u e. write_and_mark c t c' t' p report e)
