-- ===== src/Publication/Marker/Required.antt =====
-- What a publication that is accepted shows, and that a publication that is written is accepted.
use nscscc_cpu.Base.{
  ℕ, Bool, true, false, not, ◌||◌, String, str_eq, eq_iff, List, Option, none, some, codes,
  is_hex_text, same_set, if◌then◌else◌, ◌≡◌, refl, sym, ap, ◌∙◌, subst, or-false_parts,
}
use nscscc_cpu.Json.{Json, obj, Fields, keys, py_eq}
use nscscc_cpu.Locks.Disk.{Attempt, done, failed, Failure, refused}
use nscscc_cpu.Publication.Dir.{Node, regular, link, other, Dir}
use nscscc_cpu.Publication.Replace.{reject_link, both_done}
use nscscc_cpu.Publication.Marker.{
  Tools, Publication, report_file, marker_file, marker_fields, marker_keys, is_iteration_id,
  accepts, sha256_node, json_sha256, check_digest, read_node, check_marker, attempt_then,
  check_published, require_report_publication,
}

pub both_done-parts :
    (a b : Attempt (Unit {0})) → both_done a b ≡ done tt → (a ≡ done tt) × (b ≡ done tt)
both_done-parts (done u) b h = (refl, h)
both_done-parts (failed why) b h = cc

pub attempt_then-parts :
    {A B : Type 0} (a : Attempt A) (next : A → Attempt B) {y : B}
    → attempt_then a next ≡ done y
    → (x : A) × (a ≡ done x) × (next x ≡ done y)
attempt_then-parts (done x) next h = (x, refl, h)
attempt_then-parts (failed why) next h = cc

pub accepts-done : (b : Bool) (m : String) → accepts b m ≡ done tt → b ≡ true
accepts-done true m h = refl
accepts-done false m h = cc

unless-parts :
    {A : Type 0} (b : Bool) (why : Failure) (a : Attempt A) {y : A}
    → (if b then failed why else a) ≡ done y
    → (b ≡ false) × (a ≡ done y)
unless-parts true why a h = cc
unless-parts false why a h = (refl, h)

not-false : (b : Bool) → not b ≡ false → b ≡ true
not-false true h = refl
not-false false h = cc

pub done_injective : {A : Type 0} {x y : A} → done x ≡ done y → x ≡ y
done_injective h = cc

module _ (T : Tools) where
  -- The file at a name has the digest.
  abbrev pub HasDigest : Dir T.Byte → List ℕ → String → Type 0
  HasDigest d name digest =
      (bytes : List T.Byte) × (d name ≡ some (regular bytes)) × (T.sha256_bytes bytes ≡ digest)

  pub digest_checked :
      (m expected : String) (node : Option (Node T.Byte))
      → check_digest T m expected (sha256_node T node) ≡ done tt
      → (bytes : List T.Byte) × (node ≡ some (regular bytes)) × (T.sha256_bytes bytes ≡ expected)
  digest_checked m expected (some (regular bytes)) h =
      (bytes, refl, (eq_iff (T.sha256_bytes bytes) expected).0 (accepts-done _ m h))
  digest_checked m expected (some link) h = cc
  digest_checked m expected (some other) h = cc
  digest_checked m expected none h = cc

  check_marker-parts :
      (p : Publication) (report : Json) (sha : String) (read : Option Json) (marker : Fields)
      → check_marker T p report sha read ≡ done marker
      → (read ≡ some (obj marker))
        × (py_eq (obj marker) (obj (marker_fields p sha)) ≡ true)
        × (sha ≡ json_sha256 T report)
  check_marker-parts p report sha (some (obj found)) marker h =
      let (_, h1) =
        unless-parts (not (same_set (keys found) marker_keys))
          (refused "publication marker has an invalid schema") _ h in
      let (_, h2) =
        unless-parts (not (is_iteration_id (codes p.iteration_id))) (refused "invalid iteration id")
          _ h1 in
      let (same, h3) =
        unless-parts
          (not (py_eq (obj found) (obj (marker_fields p sha)))
            || not (str_eq sha (json_sha256 T report)))
          (refused "report publication marker mismatch") _ h2 in
      let (a, b) = or-false_parts (not (py_eq (obj found) (obj (marker_fields p sha)))) _ same in
      let found_is : found ≡ marker = done_injective h3 in
      (
        ap (λ f. some (obj f)) found_is,
        subst (λ f. py_eq (obj f) (obj (marker_fields p sha)) ≡ true) found_is
            (not-false (py_eq (obj found) (obj (marker_fields p sha))) a),
        (eq_iff sha (json_sha256 T report)).0 (not-false (str_eq sha (json_sha256 T report)) b),
      )
  check_marker-parts p report sha none marker h = cc
  check_marker-parts p report sha (some _) marker h = cc

  read-parts :
      (node : Option (Node T.Byte)) (read : Option Json × List T.Byte)
      → read_node T node ≡ done read
      → (node ≡ some (regular read.1)) × (read.0 ≡ T.loads read.1)
  read-parts (some (regular bytes)) read h =
      let same : (T.loads bytes, bytes) ≡ read = done_injective h in
      (
        ap (λ (r : Option Json × List T.Byte). some (regular r.1)) same,
        subst (λ (r : Option Json × List T.Byte). r.0 ≡ T.loads r.1) same refl,
      )
  read-parts (some link) read h = cc
  read-parts (some other) read h = cc
  read-parts none read h = cc

  -- A publication that is required successfully: the report file has the digest asked for, which is the
  -- digest of the report's encoding, and the marker file decodes to an object that equals the marker of
  -- this command, iteration, publication and publisher for that digest; the digest returned is the
  -- marker file's.
  pub require_report_publication-bound :
      (p : Publication) (report : Json) (sha : String) (d : Dir T.Byte) (marker : Fields)
      (digest : String)
      → require_report_publication T p report sha d ≡ done (marker, digest)
      → HasDigest d (report_file p) sha
        × (sha ≡ json_sha256 T report)
        × HasDigest d (marker_file p) digest
        × (bytes : List T.Byte) × (d (marker_file p) ≡ some (regular bytes))
        × (T.loads bytes ≡ some (obj marker))
        × (py_eq (obj marker) (obj (marker_fields p sha)) ≡ true)
  unfolding require_report_publication check_published
  require_report_publication-bound p report sha d marker digest h =
      let (_, e0, h0) = attempt_then-parts (check_published T p sha d) _ h in
      let (read, e1, h1) = attempt_then-parts (read_node T (d (marker_file p))) _ h0 in
      let (found, e2, h2) = attempt_then-parts (check_marker T p report sha read.0) _ h1 in
      let (_, c1) =
        both_done-parts
          (accepts (is_iteration_id (codes p.publication_id)) "invalid report publication id") _
          e0 in
      let (_, c2) =
        both_done-parts
          (reject_link "published report must not contain a symlink or junction"
            (d (report_file p)))
          _ c1 in
      let (_, c3) =
        both_done-parts
          (reject_link "report publication marker must not contain a symlink or junction"
            (d (marker_file p)))
          _ c2 in
      let (_, c4) =
        both_done-parts
          (accepts (is_hex_text 64 p.publisher_sha256) "report publisher SHA256 is invalid") _ c3 in
      let (loaded, equal, same) = check_marker-parts p report sha read.0 found e2 in
      let (node, decoded) = read-parts (d (marker_file p)) read e1 in
      let returned : (found, T.sha256_bytes read.1) ≡ (marker, digest) = done_injective h2 in
      let is_marker : found ≡ marker = ap (λ (r : Fields × String). r.0) returned in
      (
        digest_checked "published report changed before consumption" sha (d (report_file p)) c4,
        same,
        (read.1, node, ap (λ (r : Fields × String). r.1) returned),
        read.1,
        node,
        sym decoded ∙ loaded ∙ ap (λ m. some (obj m)) is_marker,
        subst (λ m. py_eq (obj m) (obj (marker_fields p sha)) ≡ true) is_marker equal,
      )
