-- ===== src/Publication/Replace/Written.antt =====
-- What `write_json` may be observed to do, and what it leaves behind.
use nscscc_cpu.Base.{
  ℕ, Bool, true, false, List, [], Option, none, some, text_eq, text_eq_refl, if◌then◌else◌, ◌≡◌,
  refl, sym, ap, ◌∙◌, subst,
}
use nscscc_cpu.Locks.Disk.{Attempt, done, failed, Failure, os_error}
use nscscc_cpu.Publication.Dir.{
  Node, regular, Dir, set_name, Run, raises, changes, continue, and_then,
}
use nscscc_cpu.Publication.Replace.{
  Calls, remove_temporary, clean_up, settle, confirm, move_temporary, replace_target, write_stream,
  recover, write_file, open_temporary, prepare, write_json_posix, reject_link, write_json,
}
use nscscc_cpu.Publication.Replace.Atomic.{
  Refines, Refines-glue, Refines-continue, Refines-then, Refines-pick, Refines-unless,
  Refines-change, kept_target, kept_others, moved_target, clean_up-Refines, move_temporary-Refines,
  write_stream-Refines, write_stream-written,
}

failed_not_done {ℓ} : {A : Type ℓ} {B : Type 0} {why : Failure} {b : B} → failed why ≡ done b → A
failed_not_done h = cc

module _ {Byte : Type 0} (payload : List Byte) (target temporary : List ℕ) (c : Calls)
    (apart : text_eq temporary target ≡ false) where
  -- The cleaning up raises.
  clean_up_raises :
      (why : Failure) (d : Dir Byte) (u : Unit {0})
      → (clean_up c target temporary why d).outcome ≡ done u
      → ⊥
  unfolding clean_up
  clean_up_raises why d u h = raised (d temporary) h
    where
      unless :
          (b : Bool)
          → (if b
              then raises os_error d
              else and_then
                  (changes (set_name temporary none d))
                  (λ v e. raises {A = Unit {0}} why e)).outcome
            ≡ done u
          → ⊥
      unless true k = failed_not_done k
      unless false k = failed_not_done k

      raised :
          (node : Option (Node Byte))
          → (remove_temporary c target temporary node why d).outcome ≡ done u
          → ⊥
      raised none k = failed_not_done k
      raised (some node) k = unless c.unlink_temporary_fails k

  recover-Refines :
      (o : Attempt (Unit {0})) (d : Dir Byte) (r : Run Byte (Unit {0}))
      → Refines payload target temporary d r
      → Refines payload target temporary d (recover c target temporary o r)
  recover-Refines (done u) d r h = h
  recover-Refines (failed why) d r h =
      Refines-glue payload target temporary d r (clean_up c target temporary why r.disk) h
        (clean_up-Refines payload target temporary c apart why r.disk)

  recover-written :
      (o : Attempt (Unit {0})) (r : Run Byte (Unit {0})) (u : Unit {0})
      → r.outcome ≡ o
      → (recover c target temporary o r).outcome ≡ done u
      → (r.outcome ≡ done u) × (recover c target temporary o r ≡ r)
  recover-written (done v) r u e h = (h, refl)
  recover-written (failed why) r u e h = absurd (clean_up_raises why r.disk u h)

  write_file-Refines :
      (d : Dir Byte) → Refines payload target temporary d (write_file c target temporary payload d)
  unfolding write_file
  write_file-Refines d =
      let empty : Option (Node Byte) = some (regular []) in
      Refines-change payload target temporary d (set_name temporary empty d)
        (λ u e. write_stream c target temporary c.flushed payload e)
        (kept_target payload target temporary c apart empty d)
        (kept_others payload target temporary c apart empty d)
        (write_stream-Refines payload target temporary c apart c.flushed
          (set_name temporary empty d))

  write_file-written :
      (d : Dir Byte) (u : Unit {0})
      → (write_file c target temporary payload d).outcome ≡ done u
      → (write_file c target temporary payload d).disk temporary ≡ some (regular payload)
  unfolding write_file
  write_file-written d u h =
      write_stream-written payload target temporary c apart c.flushed
        (set_name temporary (some (regular [])) d) u h

  -- Creation, writing and replacement, where the temporary name is free and can be opened.
  create : Dir Byte → Run Byte (Unit {0})
  create d =
      and_then
        (recover c target temporary (write_file c target temporary payload d).outcome
          (write_file c target temporary payload d))
        (λ u e. replace_target c target temporary e)

  recovered-written :
      (d : Dir Byte) (u : Unit {0}) (r : Run Byte (Unit {0}))
      → recover c target temporary
          (write_file c target temporary payload d).outcome
          (write_file c target temporary payload d)
        ≡ r
      → r.outcome ≡ done u
      → r.disk temporary ≡ some (regular payload)
  recovered-written d u r same h =
      let (e, whole) =
        recover-written (write_file c target temporary payload d).outcome
          (write_file c target temporary payload d) u refl
          (ap (λ (s : Run Byte (Unit {0})). s.outcome) same ∙ h) in
      subst (λ (s : Run Byte (Unit {0})). s.disk temporary ≡ some (regular payload))
        (sym whole ∙ same) (write_file-written d u e)

  create-Refines : (d : Dir Byte) → Refines payload target temporary d (create d)
  unfolding create replace_target
  create-Refines d =
      let r =
        recover c target temporary (write_file c target temporary payload d).outcome
          (write_file c target temporary payload d) in
      Refines-then payload target temporary d r (λ u e. replace_target c target temporary e)
        (recover-Refines (write_file c target temporary payload d).outcome d
          (write_file c target temporary payload d) (write_file-Refines d))
        (λ u h.
          move_temporary-Refines payload target temporary c apart _ r.disk
            (recovered-written d u r refl h))

  open_temporary-Refines :
      (node : Option (Node Byte)) (d : Dir Byte)
      → Refines payload target temporary d (open_temporary c target temporary node payload d)
  unfolding open_temporary create
  open_temporary-Refines (some node) d =
      clean_up-Refines payload target temporary c apart os_error d
  open_temporary-Refines none d =
      Refines-pick payload target temporary c.open_fails d (clean_up c target temporary os_error d)
        (create d) (clean_up-Refines payload target temporary c apart os_error d) (create-Refines d)

  prepare-Refines :
      (o : Attempt (Unit {0})) (d : Dir Byte)
      → Refines payload target temporary d (prepare c target temporary o payload d)
  unfolding prepare
  prepare-Refines (failed why) d = clean_up-Refines payload target temporary c apart why d
  prepare-Refines (done u) d = open_temporary-Refines (d temporary) d

  -- Whatever the system calls answer, each directory that can be observed while write_json runs follows
  -- from the one before by a transition of the specification, and the last one is the directory at the end.
  pub write_json-Refines :
      (d : Dir Byte) → Refines payload target temporary d (write_json c target temporary payload d)
  unfolding write_json write_json_posix
  write_json-Refines d =
      Refines-continue payload target temporary
        (reject_link "JSON output must not contain a symlink or junction" (d target))
        (λ u e. write_json_posix c target temporary payload e) d
        (λ u h.
          Refines-unless payload target temporary c.open_parent_fails os_error d _
            (prepare-Refines _ d))

  -- A property of the directory that a run leaves if it returns.
  abbrev Leaves : {A : Type 0} → (Dir Byte → Type 0) → Run Byte A → Type 0
  Leaves {A} P r = (a : A) → r.outcome ≡ done a → P r.disk

  Leaves-continue :
      {A B : Type 0} (P : Dir Byte → Type 0) (o : Attempt A) (next : A → Dir Byte → Run Byte B)
      (d : Dir Byte)
      → ((a : A) → o ≡ done a → Leaves P (next a d))
      → Leaves P (continue o (λ a. next a d) d)
  Leaves-continue P (done a) next d k = k a refl
  Leaves-continue P (failed why) next d k = λ b h. failed_not_done h

  Leaves-unless :
      (P : Dir Byte → Type 0) (b : Bool) (why : Failure) (d : Dir Byte) (r : Run Byte (Unit {0}))
      → Leaves P r
      → Leaves P (if b then raises why d else r)
  Leaves-unless P true why d r k = λ a h. failed_not_done h
  Leaves-unless P false why d r k = k

  -- The payload at the target, and nothing at the temporary name.
  abbrev pub IsPublished : Dir Byte → Type 0
  IsPublished d = (d target ≡ some (regular payload)) × (d temporary ≡ none)

  clean_up-Leaves :
      (why : Failure) (d : Dir Byte) → Leaves IsPublished (clean_up c target temporary why d)
  clean_up-Leaves why d u h = absurd (clean_up_raises why d u h)

  settle-Leaves :
      (o : Attempt (Unit {0})) (d : Dir Byte)
      → IsPublished d
      → Leaves IsPublished (settle c target temporary o d)
  unfolding settle
  settle-Leaves (done v) d p = λ u h. p
  settle-Leaves (failed why) d p =
      Leaves-unless IsPublished c.unlink_target_fails why d
        (and_then (changes (set_name target none d)) (λ u e. clean_up c target temporary why e))
        (clean_up-Leaves why (set_name target none d))

  move_temporary-Leaves :
      (o : Attempt (Unit {0})) (d : Dir Byte)
      → d temporary ≡ some (regular payload)
      → Leaves IsPublished (move_temporary c target temporary o d)
  unfolding move_temporary confirm
  move_temporary-Leaves (failed why) d e = clean_up-Leaves why d
  move_temporary-Leaves (done v) d e =
      settle-Leaves _ (set_name temporary none (set_name target (d temporary) d))
        (moved_target payload target temporary c apart d e, rw (text_eq_refl temporary) refl)

  create-Leaves : (d : Dir Byte) → Leaves IsPublished (create d)
  unfolding create replace_target
  create-Leaves d =
      let r =
        recover c target temporary (write_file c target temporary payload d).outcome
          (write_file c target temporary payload d) in
      Leaves-continue IsPublished r.outcome (λ u e. replace_target c target temporary e) r.disk
        (λ u h. move_temporary-Leaves _ r.disk (recovered-written d u r refl h))

  open_temporary-Leaves :
      (node : Option (Node Byte)) (d : Dir Byte)
      → Leaves IsPublished (open_temporary c target temporary node payload d)
  unfolding open_temporary create
  open_temporary-Leaves (some node) d = clean_up-Leaves os_error d
  open_temporary-Leaves none d = picked c.open_fails
    where
      picked :
          (b : Bool)
          → Leaves IsPublished (if b then clean_up c target temporary os_error d else create d)
      picked true = clean_up-Leaves os_error d
      picked false = create-Leaves d

  prepare-Leaves :
      (o : Attempt (Unit {0})) (d : Dir Byte)
      → Leaves IsPublished (prepare c target temporary o payload d)
  unfolding prepare
  prepare-Leaves (failed why) d = clean_up-Leaves why d
  prepare-Leaves (done u) d = open_temporary-Leaves (d temporary) d

  -- Where write_json returns, the target holds the payload and the temporary name is free.
  pub write_json-IsPublished :
      (d : Dir Byte) (u : Unit {0})
      → (write_json c target temporary payload d).outcome ≡ done u
      → IsPublished (write_json c target temporary payload d).disk
  unfolding write_json write_json_posix
  write_json-IsPublished d =
      Leaves-continue IsPublished
        (reject_link "JSON output must not contain a symlink or junction" (d target))
        (λ u e. write_json_posix c target temporary payload e) d
        (λ u h. Leaves-unless IsPublished c.open_parent_fails os_error d _ (prepare-Leaves _ d))
