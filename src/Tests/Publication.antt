-- ===== src/Tests/Publication.antt =====
-- A report that is published over an older one, with an operating system that answers well.
use nscscc_cpu.Waivers.{text_ltb}
use nscscc_cpu.Base.{
  if◌then◌else◌, ℕ, true, false, String, List, [], ◌∷◌, Option, none, some, codes, ◌≡◌, refl,
}
use nscscc_cpu.Json.{Json, Fields, obj, str, field, end, py_eq, lookup}
use nscscc_cpu.Locks.Disk.{done}
use nscscc_cpu.Publication.Dir.{regular, Dir, set_name}
use nscscc_cpu.Publication.Replace.{
  Calls, settle, confirm, move_temporary, replace_target, write_stream, write_file, open_temporary,
  prepare, write_json_posix, write_json,
}
use nscscc_cpu.Publication.Replace.Atomic.{All, Refines}
use nscscc_cpu.Publication.Replace.Written.{write_json-Refines}
use nscscc_cpu.Publication.Replace.Succeeds.{write_json-done}
use nscscc_cpu.Publication.Marker.{
  Tools, Publication, report_file, marker_file, marker_fields, Token, temporary_for,
  check_publication, write_publication_marker, require_report_publication, check_published,
  publish_report,
}
use nscscc_cpu.Publication.Marker.Required.{HasDigest, require_report_publication-bound}
use nscscc_cpu.Publication.Marker.Accepted.{sorted_marker, write_marker-required}
use nscscc_cpu.Publication.Marker.Ordered.{IsOrdered, publish_report-IsOrdered}

abbrev digest : String
digest = "e3b0c44298fc1c149afbf4c8996fb92427ae41e4649b934ca495991b7852b855"

-- The fields of an object in the order of their keys.
abbrev insert_field : String → Json → Fields → Fields
insert_field k v end = field k v end
insert_field k v (field j w fs) =
    if text_ltb (codes k) (codes j)
    then field k v (field j w fs)
    else field j w (insert_field k v fs)

abbrev sorted_fields : Fields → Fields
sorted_fields end = end
sorted_fields (field k v fs) = insert_field k v (sorted_fields fs)

abbrev sorted_document : Json → Json
sorted_document (obj fs) = obj (sorted_fields fs)
sorted_document v = v

-- A file of one byte that is the whole document.
abbrev tools : Tools
tools = record {
  Byte = Json;
  dumps = λ v. sorted_document v ∷ [];
  loads = read;
  sha256_bytes = λ bytes. digest;
}
  where
    read : List Json → Option Json
    read [] = none
    read (v ∷ rest) = some v

abbrev calls : Calls
calls = record {
  open_parent_fails = false;
  parent_before = some true;
  stat_fails = false;
  open_fails = false;
  flushed = 0 ∷ [];
  write_fails = false;
  parent_then = some true;
  replace_fails = false;
  parent_after = some true;
  fsync_fails = false;
  unlink_target_fails = false;
  unlink_temporary_fails = false;
}

-- The directory cannot be made durable.
abbrev failing_calls : Calls
failing_calls = record {
  open_parent_fails = false;
  parent_before = some true;
  stat_fails = false;
  open_fails = false;
  flushed = 0 ∷ [];
  write_fails = false;
  parent_then = some true;
  replace_fails = false;
  parent_after = some true;
  fsync_fails = true;
  unlink_target_fails = false;
  unlink_temporary_fails = false;
}

abbrev overlay : Publication
overlay = record {
  report_name = "chiplab-overlay.json";
  command = "chiplab-overlay";
  iteration_id = "20260713-1415-icache-spinal";
  publication_id = "a1";
  publisher_sha256 = digest;
}

abbrev token : Token
token = record { pid = codes "17"; token = codes "0011" }

abbrev report : Json
report = obj (field "status" (str "pass") end)

abbrev old_report : Json
old_report = obj (field "status" (str "fail") end)

abbrev empty_directory : Dir Json
empty_directory = λ q. none

abbrev with_report : Json → Dir Json
with_report r = set_name (report_file overlay) (some (regular (r ∷ []))) empty_directory

-- An earlier run's report and marker.
abbrev stale : Dir Json
stale =
    set_name (marker_file overlay) (some (regular (obj (marker_fields overlay digest) ∷ [])))
      (with_report old_report)

abbrev temporary : List ℕ
temporary = temporary_for token (report_file overlay)

written_example :
    ((write_json calls (report_file overlay) temporary (report ∷ []) stale).outcome ≡ done tt)
    × ((write_json calls (report_file overlay) temporary (report ∷ []) stale).disk
          (report_file overlay)
        ≡ some (regular (report ∷ [])))
    × ((write_json calls (report_file overlay) temporary (report ∷ []) stale).disk temporary ≡ none)
written_example =
    write_json-done (report ∷ []) (report_file overlay) temporary calls stale refl
      (refl, refl, refl, refl, refl, refl, refl, refl, refl) refl refl

refined_example :
    Refines
      (report ∷ [])
      (report_file overlay)
      temporary
      stale
      (write_json failing_calls (report_file overlay) temporary (report ∷ []) stale)
refined_example =
    write_json-Refines (report ∷ []) (report_file overlay) temporary failing_calls refl stale

marked :
    (write_publication_marker tools calls token overlay report (with_report report)).outcome
    ≡ done digest
unfolding write_publication_marker check_publication write_json write_json_posix prepare
    open_temporary write_file write_stream replace_target move_temporary confirm settle
marked = refl

required_example :
    require_report_publication tools overlay report digest
      (write_publication_marker tools calls token overlay report (with_report report)).disk
    ≡ done (sorted_marker overlay digest, digest)
required_example =
    write_marker-required tools (λ p report_sha256. refl) calls token overlay report
      (with_report report) digest marked

abbrev complete : Dir Json
complete =
    set_name (marker_file overlay) (some (regular (obj (marker_fields overlay digest) ∷ [])))
      (with_report report)

accepted :
    require_report_publication tools overlay report digest complete
    ≡ done (marker_fields overlay digest, digest)
unfolding require_report_publication check_published py_eq lookup
accepted = refl

bound_example :
    HasDigest tools complete (report_file overlay) digest
    × (digest ≡ digest)
    × HasDigest tools complete (marker_file overlay) digest
    × (bytes : List Json) × (complete (marker_file overlay) ≡ some (regular bytes))
    × (tools.loads bytes ≡ some (obj (marker_fields overlay digest)))
    × (py_eq (obj (marker_fields overlay digest)) (obj (marker_fields overlay digest)) ≡ true)
bound_example =
    require_report_publication-bound tools overlay report digest complete
      (marker_fields overlay digest) digest accepted

published_in_order :
    All
      (IsOrdered tools overlay report)
      (publish_report tools false false calls token failing_calls token overlay report stale).seen
published_in_order =
    publish_report-IsOrdered tools overlay report false false calls token failing_calls token stale
