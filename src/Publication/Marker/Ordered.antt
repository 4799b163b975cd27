-- ===== src/Publication/Marker/Ordered.antt =====
-- A marker never stands beside a report that it does not bind: the order of the steps of a
-- publication.
use nscscc_cpu.Base.{
  ℕ, Bool, true, false, List, [], ◌∷◌, ◌++◌, Option, none, some, ◌≡◌, refl, ◌∙◌, text_eq,
  text_eq_refl, ◌⊎◌, inl, inr,
}
use nscscc_cpu.Json.{Json, obj}
use nscscc_cpu.Locks.Disk.{Attempt, done, failed}
use nscscc_cpu.Publication.Dir.{Node, regular, link, other, Dir, set_name, Run, and_then, continue}
use nscscc_cpu.Publication.Replace.{Calls, write_json}
use nscscc_cpu.Publication.Replace.Atomic.{All, Observed-All}
use nscscc_cpu.Publication.Replace.Written.{write_json-IsPublished, write_json-Refines}
use nscscc_cpu.Publication.Marker.{
  Tools, Publication, report_file, marker_file, marker_fields, Token, temporary_for, json_sha256,
  sha256_node, check_digest, check_publication, compare_marker, write_publication_marker,
  remove_node, remove_stale_report_publication, publish_report, write_and_mark, compare_and_mark,
}
use nscscc_cpu.Publication.Marker.Accepted.{continue-parts}
use nscscc_cpu.Publication.Marker.Names.{
  temporary_apart, marker_apart, report_apart, marker_temporary_apart, report_temporary_apart,
}

All-append : {A : Type 0} (P : A → Type 0) (xs ys : List A) → All P xs → All P ys → All P (xs ++ ys)
All-append P [] ys h k = k
All-append P (x ∷ xs) ys (p, h) k = (p, All-append P xs ys h k)

All-weaker :
    {A : Type 0} (P Q : A → Type 0) → ((a : A) → P a → Q a) → (xs : List A) → All P xs → All Q xs
All-weaker P Q f [] h = tt
All-weaker P Q f (x ∷ xs) (p, h) = (f x p, All-weaker P Q f xs h)

module _ {Byte : Type 0} (P : Dir Byte → Type 0) where
  All-continue :
      {A B : Type 0} (o : Attempt A) (next : A → Run Byte B) (d : Dir Byte)
      → ((a : A) → o ≡ done a → All P (next a).seen)
      → All P (continue o next d).seen
  All-continue (done a) next d k = k a refl
  All-continue (failed why) next d k = tt

  All-then :
      {A B : Type 0} (r : Run Byte A) (next : A → Dir Byte → Run Byte B)
      → All P r.seen
      → ((a : A) → r.outcome ≡ done a → All P (next a r.disk).seen)
      → All P (and_then r next).seen
  All-then r next h k =
      All-append P r.seen (continue r.outcome (λ a. next a r.disk) r.disk).seen h
        (All-continue r.outcome (λ a. next a r.disk) r.disk k)

-- The removal of one name takes it away and leaves the others.
removed :
    {Byte : Type 0} (fails : Bool) (name : List ℕ) (node : Option (Node Byte)) (d : Dir Byte)
    (u : Unit {0})
    → d name ≡ node
    → (remove_node fails name node d).outcome ≡ done u
    → (remove_node fails name node d).disk name ≡ none
unfolding remove_node
removed fails name none d u e h = e
removed fails name (some link) d u e h = cc
removed fails name (some other) d u e h = cc
removed true name (some (regular bytes)) d u e h = cc
removed false name (some (regular bytes)) d u e h = rw (text_eq_refl name) refl

removed_seen :
    {Byte : Type 0} (P : Dir Byte → Type 0) (fails : Bool) (name : List ℕ)
    (node : Option (Node Byte)) (d : Dir Byte)
    → P (set_name name none d)
    → All P (remove_node fails name node d).seen
unfolding remove_node
removed_seen P fails name none d p = tt
removed_seen P fails name (some link) d p = tt
removed_seen P fails name (some other) d p = tt
removed_seen P true name (some (regular bytes)) d p = tt
removed_seen P false name (some (regular bytes)) d p = (p, tt)

removed_others :
    {Byte : Type 0} (fails : Bool) (name q : List ℕ) (node : Option (Node Byte)) (d : Dir Byte)
    → text_eq name q ≡ false
    → (remove_node fails name node d).disk q ≡ d q
unfolding remove_node
removed_others fails name q none d e = refl
removed_others fails name q (some link) d e = refl
removed_others fails name q (some other) d e = refl
removed_others true name q (some (regular bytes)) d e = refl
removed_others false name q (some (regular bytes)) d e = rw (e) refl

module _ (T : Tools) (p : Publication) (report : Json) where
  -- The directory has no marker, or the report file is the report's encoding.
  abbrev pub IsOrdered : Dir T.Byte → Type 0
  IsOrdered e = (e (marker_file p) ≡ none) ⊎ (e (report_file p) ≡ some (regular (T.dumps report)))

  abbrev NoMarker : Dir T.Byte → Type 0
  NoMarker e = e (marker_file p) ≡ none

  stale_seen :
      (a b : Bool) (d : Dir T.Byte) → All NoMarker (remove_stale_report_publication a b p d).seen
  unfolding remove_stale_report_publication
  stale_seen a b d =
      let r = remove_node a (marker_file p) (d (marker_file p)) d in
      All-then NoMarker r (λ u e. remove_node b (report_file p) (e (report_file p)) e)
        (removed_seen NoMarker a (marker_file p) (d (marker_file p)) d
          (rw (text_eq_refl (marker_file p)) refl))
        (λ u h.
          removed_seen NoMarker b (report_file p) (r.disk (report_file p)) r.disk
            (rw (report_apart p) (removed a (marker_file p) (d (marker_file p)) d u refl h)))

  later_gone :
      {A B : Type 0} (o : Attempt A) (next : A → Run T.Byte B) (d : Dir T.Byte)
      → NoMarker d
      → ((x : A) → NoMarker (next x).disk)
      → NoMarker (continue o next d).disk
  later_gone (done x) next d h k = k x
  later_gone (failed why) next d h k = h

  stale_gone :
      (a b : Bool) (d : Dir T.Byte) (u : Unit {0})
      → (remove_stale_report_publication a b p d).outcome ≡ done u
      → NoMarker (remove_stale_report_publication a b p d).disk
  unfolding remove_stale_report_publication
  stale_gone a b d u h =
      let r = remove_node a (marker_file p) (d (marker_file p)) d in
      let (v, e, _) =
        continue-parts r.outcome
          (λ w. remove_node b (report_file p) (r.disk (report_file p)) r.disk) r.disk h in
      later_gone r.outcome (λ w. remove_node b (report_file p) (r.disk (report_file p)) r.disk)
        r.disk (removed a (marker_file p) (d (marker_file p)) d v refl e)
        (λ w.
          removed_others b (report_file p) (marker_file p) (r.disk (report_file p)) r.disk
            (report_apart p)
          ∙ removed a (marker_file p) (d (marker_file p)) d v refl e)

  -- The writing of the report shows no marker, that of the marker shows the report.
  report_seen :
      (c : Calls) (t : Token) (d : Dir T.Byte)
      → NoMarker d
      → All NoMarker
          (write_json c (report_file p) (temporary_for t (report_file p)) (T.dumps report) d).seen
  report_seen c t d h =
      let r =
        write_json-Refines (T.dumps report) (report_file p) (temporary_for t (report_file p)) c
          (temporary_apart t (report_file p)) d in
      Observed-All (T.dumps report) (report_file p) (temporary_for t (report_file p)) NoMarker
        (λ x e f g. f (marker_file p) (report_apart p) (report_temporary_apart t p) ∙ g) d _ h r.0

  marker_seen :
      (c : Calls) (t : Token) (d : Dir T.Byte)
      → d (report_file p) ≡ some (regular (T.dumps report))
      → All
          (λ (e : Dir T.Byte). e (report_file p) ≡ some (regular (T.dumps report)))
          (write_publication_marker T c t p report d).seen
  unfolding write_publication_marker
  marker_seen c t d h =
      let payload = T.dumps (obj (marker_fields p (json_sha256 T report))) in
      let temporary = temporary_for t (marker_file p) in
      let r =
        write_json-Refines payload (marker_file p) temporary c (temporary_apart t (marker_file p))
          d in
      All-continue (λ (e : Dir T.Byte). e (report_file p) ≡ some (regular (T.dumps report)))
        (check_publication T p report d) _ d
        (λ u k.
          All-then _ (write_json c (marker_file p) temporary payload d)
            (λ v e. compare_marker T p report e)
            (Observed-All payload (marker_file p) temporary
              (λ (e : Dir T.Byte). e (report_file p) ≡ some (regular (T.dumps report)))
              (λ x e f g. f (report_file p) (marker_apart p) (marker_temporary_apart t p) ∙ g) d _ h
              r.0)
            (λ v l. tt))

  write_and_mark_seen :
      (c : Calls) (t : Token) (c' : Calls) (t' : Token) (d : Dir T.Byte)
      → NoMarker d
      → All IsOrdered (write_and_mark T c t c' t' p report d).seen
  unfolding write_and_mark
  write_and_mark_seen c t c' t' d h =
      let r = write_json c (report_file p) (temporary_for t (report_file p)) (T.dumps report) d in
      All-then IsOrdered r (λ v e. compare_and_mark T c' t' p report e)
        (All-weaker NoMarker IsOrdered (λ e k. inl k) r.seen (report_seen c t d h))
        (λ v k.
          let (whole, _) =
            write_json-IsPublished (T.dumps report) (report_file p)
              (temporary_for t (report_file p)) c (temporary_apart t (report_file p)) d v k in
          All-continue IsOrdered
            (check_digest T "chiplab overlay report changed during publication"
              (json_sha256 T report) (sha256_node T (r.disk (report_file p))))
            (λ w. write_publication_marker T c' t' p report r.disk) r.disk
            (λ w l.
              All-weaker (λ (e : Dir T.Byte). e (report_file p) ≡ some (regular (T.dumps report)))
                IsOrdered (λ e m. inr m) (write_publication_marker T c' t' p report r.disk).seen
                (marker_seen c' t' r.disk whole)))

  -- Whatever the system calls answer, every directory that can be observed while a report is published has
  -- no marker or has the whole report: a marker of this or an earlier run never stands beside another report.
  pub publish_report-IsOrdered :
      (marker_stays report_stays : Bool) (c : Calls) (t : Token) (c' : Calls) (t' : Token)
      (d : Dir T.Byte)
      → All IsOrdered (publish_report T marker_stays report_stays c t c' t' p report d).seen
  unfolding publish_report
  publish_report-IsOrdered a b c t c' t' d =
      let stale = remove_stale_report_publication a b p d in
      All-then IsOrdered stale (λ u e. write_and_mark T c t c' t' p report e)
        (All-weaker NoMarker IsOrdered (λ e h. inl h) stale.seen (stale_seen a b d))
        (λ u h. write_and_mark_seen c t c' t' stale.disk (stale_gone a b d u h))
