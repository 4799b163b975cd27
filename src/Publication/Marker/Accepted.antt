-- ===== src/Publication/Marker/Accepted.antt =====
-- A marker that is written is accepted where it is required.
use nscscc_cpu.Base.{
  pos, true, String, str_eq_refl, List, some, codes, is_hex_text, ◌≡◌, refl, sym, ap, ◌∙◌, subst,
}
use nscscc_cpu.Json.{int, field, end, str, Json, obj, Fields, lookup, py_eq}
use nscscc_cpu.Locks.Disk.{Attempt, done, failed}
use nscscc_cpu.Publication.Dir.{regular, Dir, Run, continue}
use nscscc_cpu.Publication.Replace.{Calls, reject_link, write_json}
use nscscc_cpu.Publication.Replace.Atomic.{Observed-others}
use nscscc_cpu.Publication.Replace.Written.{write_json-IsPublished, write_json-Refines}
use nscscc_cpu.Publication.Marker.{
  Tools, Publication, report_file, marker_file, marker_fields, is_iteration_id, accepts, Token,
  temporary_for, sha256_node, json_sha256, check_digest, check_publication, compare_marker,
  write_publication_marker, check_published, require_report_publication,
}
use nscscc_cpu.Publication.Marker.Names.{temporary_apart, marker_apart, marker_temporary_apart}
use nscscc_cpu.Publication.Marker.Required.{
  done_injective, both_done-parts, attempt_then-parts, accepts-done, digest_checked,
}

pub continue-parts :
    {Byte A B : Type 0} (o : Attempt A) (next : A → Run Byte B) (d : Dir Byte) {y : B}
    → (continue o next d).outcome ≡ done y
    → (x : A) × (o ≡ done x) × (continue o next d ≡ next x)
continue-parts (done x) next d h = (x, refl, refl)
continue-parts (failed why) next d h = cc

-- The marker with its keys in the order of `json.dumps(..., sort_keys=True)`, as it is read back.
abbrev pub sorted_marker : Publication → String → Fields
sorted_marker p report_sha256 = field "iteration_id" (str p.iteration_id) (
    field "operation" (str p.command) (
      field "publication_id" (str p.publication_id) (
        field "publisher_sha256" (str p.publisher_sha256) (
          field "report_name" (str p.report_name) (
            field "report_sha256" (str report_sha256)
              (field "schema_version" (int (pos 1)) end))))))

fields_same :
    (p : Publication) (sha : String)
    → py_eq (obj (sorted_marker p sha)) (obj (marker_fields p sha)) ≡ true
unfolding py_eq lookup
fields_same p sha =
    rw
      (
        str_eq_refl p.iteration_id,
        str_eq_refl p.command,
        str_eq_refl p.publication_id,
        str_eq_refl p.report_name,
        str_eq_refl sha,
        str_eq_refl p.publisher_sha256,
      )
      refl

-- The decoder reads a marker that the encoder wrote.
abbrev pub ReadsBack : Tools → Type 0
ReadsBack T =
    (p : Publication) (report_sha256 : String)
    → T.loads (T.dumps (obj (marker_fields p report_sha256)))
      ≡ some (obj (sorted_marker p report_sha256))

module _ (T : Tools) where
  -- The state in which the marker has been written.
  required :
      (decodes : ReadsBack T) (p : Publication) (report : Json) (e : Dir T.Byte)
      (bytes : List T.Byte)
      → is_iteration_id (codes p.publication_id) ≡ true
      → is_iteration_id (codes p.iteration_id) ≡ true
      → is_hex_text 64 p.publisher_sha256 ≡ true
      → e (report_file p) ≡ some (regular bytes)
      → T.sha256_bytes bytes ≡ json_sha256 T report
      → e (marker_file p) ≡ some (regular (T.dumps (obj (marker_fields p (json_sha256 T report)))))
      → require_report_publication T p report (json_sha256 T report) e
        ≡ done (
          sorted_marker p (json_sha256 T report),
          json_sha256 T (obj (marker_fields p (json_sha256 T report))),
        )
  unfolding require_report_publication check_published
  required decodes p report e bytes a b c r s m =
      rw
        (
          a,
          r,
          m,
          c,
          s,
          str_eq_refl (json_sha256 T report),
          decodes p (json_sha256 T report),
          b,
          fields_same p (json_sha256 T report),
          str_eq_refl (json_sha256 T report),
        )
        refl

  -- The tests before the marker is written.
  publication_checked :
      (p : Publication) (report : Json) (d : Dir T.Byte)
      → check_publication T p report d ≡ done tt
      → (is_iteration_id (codes p.publication_id) ≡ true)
        × (is_iteration_id (codes p.iteration_id) ≡ true)
        × (is_hex_text 64 p.publisher_sha256 ≡ true)
        × (bytes : List T.Byte) × (d (report_file p) ≡ some (regular bytes))
        × (T.sha256_bytes bytes ≡ json_sha256 T report)
  unfolding check_publication
  publication_checked p report d h =
      let (a, h1) =
        both_done-parts
          (accepts (is_iteration_id (codes p.publication_id)) "invalid report publication id") _
          h in
      let (_, h2) =
        both_done-parts
          (reject_link "report publication must not contain a symlink or junction"
            (d (report_file p)))
          _ h1 in
      let (b, h3) =
        both_done-parts
          (accepts (is_hex_text 64 p.publisher_sha256) "report publisher SHA256 is invalid") _ h2 in
      let (e, f) =
        both_done-parts
          (check_digest T "report changed before publication marker" (json_sha256 T report)
            (sha256_node T (d (report_file p))))
          _ h3 in
      let (bytes, node, same) =
        digest_checked T "report changed before publication marker" (json_sha256 T report)
          (d (report_file p)) e in
      (
        accepts-done (is_iteration_id (codes p.publication_id)) _ a,
        accepts-done (is_iteration_id (codes p.iteration_id)) _ f,
        accepts-done (is_hex_text 64 p.publisher_sha256) _ b,
        bytes,
        node,
        same,
      )

  -- The state in which the writing of the marker returned.
  written_required :
      (decodes : ReadsBack T) (c : Calls) (t : Token) (p : Publication) (report : Json)
      (d : Dir T.Byte) (v : Unit {0})
      → check_publication T p report d ≡ done tt
      → (write_json c
          (marker_file p)
          (temporary_for t (marker_file p))
          (T.dumps (obj (marker_fields p (json_sha256 T report))))
          d).outcome
        ≡ done v
      → require_report_publication T p report
          (json_sha256 T report)
          (write_json c
            (marker_file p)
            (temporary_for t (marker_file p))
            (T.dumps (obj (marker_fields p (json_sha256 T report))))
            d).disk
        ≡ done (
          sorted_marker p (json_sha256 T report),
          json_sha256 T (obj (marker_fields p (json_sha256 T report))),
        )
  written_required decodes c t p report d v checked h =
      let payload = T.dumps (obj (marker_fields p (json_sha256 T report))) in
      let temporary = temporary_for t (marker_file p) in
      let apart = temporary_apart t (marker_file p) in
      let r = write_json c (marker_file p) temporary payload d in
      let (a, b, x, bytes, node, same) = publication_checked p report d checked in
      let (published, _) = write_json-IsPublished payload (marker_file p) temporary c apart d v h in
      let (observed, ends) = write_json-Refines payload (marker_file p) temporary c apart d in
      let kept : r.disk (report_file p) ≡ d (report_file p) =
        ap (λ (e : Dir T.Byte). e (report_file p)) (sym ends)
        ∙ Observed-others payload (marker_file p) temporary d r.seen (report_file p) observed
            (marker_apart p) (marker_temporary_apart t p) in
      required decodes p report r.disk bytes a b x (kept ∙ node) same published

  -- After write_publication_marker returns, require_report_publication of the same publication and the
  -- report's digest returns the marker, with its keys sorted, and its digest; the decoder is assumed to
  -- read a marker that the encoder wrote as the same items with sorted keys.
  pub write_marker-required :
      (decodes : ReadsBack T) (c : Calls) (t : Token) (p : Publication) (report : Json)
      (d : Dir T.Byte) (digest : String)
      → (write_publication_marker T c t p report d).outcome ≡ done digest
      → require_report_publication T p report
          (json_sha256 T report)
          (write_publication_marker T c t p report d).disk
        ≡ done (sorted_marker p (json_sha256 T report), digest)
  unfolding write_publication_marker
  write_marker-required decodes c t p report d digest h =
      let writing =
        write_json c (marker_file p) (temporary_for t (marker_file p))
          (T.dumps (obj (marker_fields p (json_sha256 T report)))) d in
      let (u, e, same) = continue-parts (check_publication T p report d) _ d h in
      let run = ap (λ (r : Run T.Byte String). r.outcome) (sym same) ∙ h in
      let (v, e', same') =
        continue-parts writing.outcome (λ w. compare_marker T p report writing.disk) writing.disk
          run in
      let compared : (compare_marker T p report writing.disk).outcome ≡ done digest =
        ap (λ (r : Run T.Byte String). r.outcome) (sym same') ∙ run in
      let (w, _, returned) =
        attempt_then-parts
          (check_digest T "publication marker changed while being written"
            (json_sha256 T (obj (marker_fields p (json_sha256 T report))))
            (sha256_node T (writing.disk (marker_file p))))
          (λ w. done (json_sha256 T (obj (marker_fields p (json_sha256 T report))))) compared in
      let disk_is : writing.disk ≡ (write_publication_marker T c t p report d).disk = sym (
        ap (λ (r : Run T.Byte String). r.disk) same
        ∙ ap (λ (r : Run T.Byte String). r.disk) same') in
      subst
        (λ f.
          require_report_publication T p report (json_sha256 T report) f
          ≡ done (sorted_marker p (json_sha256 T report), digest))
        disk_is
        (written_required decodes c t p report d v e e'
          ∙ ap (λ g. done (sorted_marker p (json_sha256 T report), g)) (done_injective returned))
