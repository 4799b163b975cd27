-- ===== src/Publication/Replace/Succeeds.antt =====
-- `write_json` where every system call succeeds.
use nscscc_cpu.Base.{
  ℕ, Bool, true, false, List, [], ◌∷◌, take, Option, none, some, String, if◌then◌else◌, text_eq,
  ◌≡◌, refl,
}
use nscscc_cpu.Locks.Disk.{Attempt, done, failed, os_error}
use nscscc_cpu.Publication.Dir.{
  Node, regular, link, other, Dir, Run, set_name, raises, and_then, continue,
}
use nscscc_cpu.Publication.Replace.{
  Calls, check_parent, unless_fails, both_done, check_target, clean_up, reject_link, write_stream,
  write_file, recover, open_temporary, replace_target, move_temporary, confirm, settle, prepare,
  write_json_posix, write_json,
}
use nscscc_cpu.Publication.Replace.Written.{write_json-IsPublished}

-- No call fails, and the parent is the same at each comparison.
abbrev pub Succeeds : Calls → Type 0
Succeeds c =
    (c.open_parent_fails ≡ false)
    × (c.parent_before ≡ some true)
    × (c.stat_fails ≡ false)
    × (c.open_fails ≡ false)
    × (c.write_fails ≡ false)
    × (c.parent_then ≡ some true)
    × (c.replace_fails ≡ false)
    × (c.parent_after ≡ some true)
    × (c.fsync_fails ≡ false)

module _ {Byte : Type 0} where
  -- Nothing, or a regular file.
  abbrev pub is_replaceable : Option (Node Byte) → Bool
  is_replaceable none = true
  is_replaceable (some (regular bytes)) = true
  is_replaceable (some _) = false

  replaceable_no_link :
      (node : Option (Node Byte)) (s : String)
      → is_replaceable node ≡ true
      → (reject_link s node ≡ done tt) × (check_target node ≡ done tt)
  replaceable_no_link none s h = (refl, refl)
  replaceable_no_link (some (regular bytes)) s h = (refl, refl)
  replaceable_no_link (some link) s h = cc
  replaceable_no_link (some other) s h = cc

  unless_done :
      {A : Type 0} (b : Bool) (r s : Run Byte A) {y : A}
      → b ≡ false
      → s.outcome ≡ done y
      → (if b then r else s).outcome ≡ done y
  unless_done true r s h k = cc
  unless_done false r s h k = k

  continue_done :
      {A B : Type 0} (o : Attempt A) (next : A → Run Byte B) (d : Dir Byte) {x : A} {y : B}
      → o ≡ done x
      → ((a : A) → (next a).outcome ≡ done y)
      → (continue o next d).outcome ≡ done y
  continue_done (done a) next d h k = k a
  continue_done (failed why) next d h k = cc

  module _ (payload : List Byte) (target temporary : List ℕ) (c : Calls) where
    recovered_done :
        (o : Attempt (Unit {0})) (r : Run Byte (Unit {0}))
        → o ≡ done tt
        → r.outcome ≡ done tt
        → (recover c target temporary o r).outcome ≡ done tt
    recovered_done (done u) r h k = k
    recovered_done (failed why) r h k = cc

    stream_done :
        (ns : List ℕ) (d : Dir Byte)
        → c.write_fails ≡ false
        → (write_stream c target temporary ns payload d).outcome ≡ done tt
    unfolding write_stream
    stream_done [] d h = rw (h) refl
    stream_done (n ∷ ns) d h =
        stream_done ns (set_name temporary (some (regular (take n payload))) d) h

    file_done :
        (d : Dir Byte)
        → c.write_fails ≡ false
        → (write_file c target temporary payload d).outcome ≡ done tt
    unfolding write_file
    file_done d h = stream_done c.flushed (set_name temporary (some (regular [])) d) h

    replaced_done :
        (d : Dir Byte) → Succeeds c → (replace_target c target temporary d).outcome ≡ done tt
    unfolding replace_target move_temporary confirm settle
    replaced_done d (_, _, _, _, _, then_same, replaced, after_same, synced) =
        rw (then_same, replaced, after_same, synced) refl

    opened_done :
        (node : Option (Node Byte)) (d : Dir Byte)
        → node ≡ none
        → Succeeds c
        → (open_temporary c target temporary node payload d).outcome ≡ done tt
    unfolding open_temporary
    opened_done (some node) d e s = cc
    opened_done none d e s =
        let (_, _, _, opened, written, _, _, _, _) = s in
        let r = write_file c target temporary payload d in
        let finished = recover c target temporary r.outcome r in
        unless_done c.open_fails (clean_up c target temporary os_error d)
          (and_then finished (λ u e. replace_target c target temporary e)) opened
          (continue_done finished.outcome (λ u. replace_target c target temporary finished.disk)
            finished.disk (recovered_done r.outcome r (file_done d written) (file_done d written))
            (λ u. replaced_done finished.disk s))

    prepared_done :
        (o : Attempt (Unit {0})) (d : Dir Byte)
        → o ≡ done tt
        → d temporary ≡ none
        → Succeeds c
        → (prepare c target temporary o payload d).outcome ≡ done tt
    unfolding prepare
    prepared_done (done u) d h e s = opened_done (d temporary) d e s
    prepared_done (failed why) d h e s = cc

    checks_done :
        (d : Dir Byte)
        → Succeeds c
        → check_target (d target) ≡ done tt
        → both_done
            (check_parent "JSON output parent changed before publication" c.parent_before)
            (both_done (unless_fails c.stat_fails) (check_target (d target)))
          ≡ done tt
    checks_done d (_, same, stats, _, _, _, _, _, _) h = rw (same, stats, h) refl

  -- If no system call fails, the target is a regular file or missing and the temporary name is free, then
  -- write_json returns, the target holds the payload and the temporary name is free again.
  pub write_json-done :
      (payload : List Byte) (target temporary : List ℕ) (c : Calls) (d : Dir Byte)
      → text_eq temporary target ≡ false
      → Succeeds c
      → is_replaceable (d target) ≡ true
      → d temporary ≡ none
      → ((write_json c target temporary payload d).outcome ≡ done tt)
        × ((write_json c target temporary payload d).disk target ≡ some (regular payload))
        × ((write_json c target temporary payload d).disk temporary ≡ none)
  unfolding write_json write_json_posix
  write_json-done payload target temporary c d apart s h free =
      let message : String = "JSON output must not contain a symlink or junction" in
      let (opened, _, _, _, _, _, _, _, _) = s in
      let (no_link, is_file) = replaceable_no_link (d target) message h in
      let checks =
        both_done (check_parent "JSON output parent changed before publication" c.parent_before)
          (both_done (unless_fails c.stat_fails) (check_target (d target))) in
      let prepared = prepare c target temporary checks payload d in
      let returned : (write_json c target temporary payload d).outcome ≡ done tt =
        continue_done (reject_link message (d target))
          (λ u. write_json_posix c target temporary payload d) d no_link
          (λ u. unless_done c.open_parent_fails (raises os_error d) prepared opened (
            prepared_done payload target temporary c checks d
              (checks_done payload target temporary c d s is_file) free s)) in
      let (a, b) = write_json-IsPublished payload target temporary c apart d tt returned in
      (returned, a, b)
