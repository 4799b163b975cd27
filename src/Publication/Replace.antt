-- ===== src/Publication/Replace.antt =====
-- `write_json` and `_write_json_posix` of tools/refactor.py, a system call at a time.
pub mod Atomic
pub mod Written
pub mod Succeeds
use nscscc_cpu.Base.{
  ℕ, Bool, true, false, List, [], ◌∷◌, ◌++◌, Option, none, some, codes, take, String, if◌then◌else◌,
}
use nscscc_cpu.Locks.Disk.{Attempt, done, failed, Failure, refused, os_error}
use nscscc_cpu.Publication.Dir.{
  Node, regular, link, other, Dir, set_name, Run, returns, raises, changes, continue, and_then,
}

-- What the operating system answers in one call of `_write_json_posix`. A comparison of the parent's
-- identity is `none` where `os.stat` fails; `flushed` are the lengths that the temporary file has on
-- the disk while it is written.
pub record Calls : Type 0 where
  pub open_parent_fails : Bool
  pub parent_before : Option Bool
  pub stat_fails : Bool
  pub open_fails : Bool
  pub flushed : List ℕ
  pub write_fails : Bool
  pub parent_then : Option Bool
  pub replace_fails : Bool
  pub parent_after : Option Bool
  pub fsync_fails : Bool
  pub unlink_target_fails : Bool
  pub unlink_temporary_fails : Bool

-- f".{path.name}.{os.getpid()}.{secrets.token_hex(12)}.tmp", with the digits of the process.
abbrev pub temporary_name : List ℕ → List ℕ → List ℕ → List ℕ
temporary_name name pid token = b'.' ∷ name ++ (b'.' ∷ pid ++ (b'.' ∷ token ++ codes ".tmp"))

abbrev pub check_parent : String → Option Bool → Attempt (Unit {0})
check_parent message none = failed os_error
check_parent message (some false) = failed (refused message)
check_parent message (some true) = done tt

abbrev pub unless_fails : Bool → Attempt (Unit {0})
unless_fails true = failed os_error
unless_fails false = done tt

abbrev pub both_done : Attempt (Unit {0}) → Attempt (Unit {0}) → Attempt (Unit {0})
both_done (done u) next = next
both_done (failed why) next = failed why

-- `target is not None and not stat.S_ISREG(...)`
abbrev pub check_target : {Byte : Type 0} → Option (Node Byte) → Attempt (Unit {0})
check_target none = done tt
check_target (some (regular bytes)) = done tt
check_target (some _) = failed (refused "JSON output must be a regular file")

module _ {Byte : Type 0} (c : Calls) (target temporary : List ℕ) where
  abbrev pub remove_temporary : Option (Node Byte) → Failure → Dir Byte → Run Byte (Unit {0})
  remove_temporary none why d = raises why d
  remove_temporary (some node) why d =
      if c.unlink_temporary_fails
      then raises os_error d
      else and_then (changes (set_name temporary none d)) (λ u e. raises why e)

  -- `finally`, once the temporary name may be taken: the name goes, whatever stands there.
  unfoldable pub clean_up : Failure → Dir Byte → Run Byte (Unit {0})
  clean_up why d = remove_temporary (d temporary) why d

  -- The publication stands, or the target is taken back.
  unfoldable pub settle : Attempt (Unit {0}) → Dir Byte → Run Byte (Unit {0})
  settle (done u) d = returns tt d
  settle (failed why) d =
      if c.unlink_target_fails
      then raises why d
      else and_then (changes (set_name target none d)) (λ u e. clean_up why e)

  -- Behind `os.replace`: the parent is compared again, and the directory goes to the disk.
  unfoldable pub confirm : Dir Byte → Run Byte (Unit {0})
  confirm d =
      settle
        (both_done (check_parent "JSON output parent changed during publication" c.parent_after)
          (unless_fails c.fsync_fails))
        d

  unfoldable pub move_temporary : Attempt (Unit {0}) → Dir Byte → Run Byte (Unit {0})
  move_temporary (failed why) d = clean_up why d
  move_temporary (done u) d =
      and_then (changes (set_name temporary none (set_name target (d temporary) d)))
        (λ u e. confirm e)

  -- `os.replace`, which moves the temporary file onto the target.
  unfoldable pub replace_target : Dir Byte → Run Byte (Unit {0})
  replace_target d =
      move_temporary
        (both_done (check_parent "JSON output parent changed before publication" c.parent_then)
          (unless_fails c.replace_fails))
        d

  -- `stream.write`, `flush` and `os.fsync`: the lengths on the way, and what is there at the end.
  unfoldable pub write_stream : List ℕ → List Byte → Dir Byte → Run Byte (Unit {0})
  write_stream [] payload d =
      if c.write_fails
      then raises os_error d
      else changes (set_name temporary (some (regular payload)) d)
  write_stream (n ∷ ns) payload d =
      and_then (changes (set_name temporary (some (regular (take n payload))) d))
        (λ u e. write_stream ns payload e)

  -- `finally` where the writing raises.
  abbrev pub recover : Attempt (Unit {0}) → Run Byte (Unit {0}) → Run Byte (Unit {0})
  recover (done u) r = r
  recover (failed why) r =
      let cleaned = clean_up why r.disk in
      record { outcome = cleaned.outcome; disk = cleaned.disk; seen = r.seen ++ cleaned.seen }

  -- The temporary file from its creation to the end of the writing.
  unfoldable pub write_file : List Byte → Dir Byte → Run Byte (Unit {0})
  write_file payload d =
      and_then (changes (set_name temporary (some (regular [])) d))
        (λ u e. write_stream c.flushed payload e)

  -- `os.open` with O_CREAT and O_EXCL, and what follows.
  unfoldable pub open_temporary : Option (Node Byte) → List Byte → Dir Byte → Run Byte (Unit {0})
  open_temporary (some node) payload d = clean_up os_error d
  open_temporary none payload d =
      if c.open_fails
      then clean_up os_error d
      else and_then (recover (write_file payload d).outcome (write_file payload d))
          (λ u e. replace_target e)

  unfoldable pub prepare : Attempt (Unit {0}) → List Byte → Dir Byte → Run Byte (Unit {0})
  prepare (failed why) payload d = clean_up why d
  prepare (done u) payload d = open_temporary (d temporary) payload d

  unfoldable pub write_json_posix : List Byte → Dir Byte → Run Byte (Unit {0})
  write_json_posix payload d =
      if c.open_parent_fails
      then raises os_error d
      else prepare
          (both_done (check_parent "JSON output parent changed before publication" c.parent_before)
            (both_done (unless_fails c.stat_fails) (check_target (d target))))
          payload d

-- `reject_link_or_reparse_path`, of the last component
abbrev pub reject_link : {Byte : Type 0} → String → Option (Node Byte) → Attempt (Unit {0})
reject_link message (some link) = failed (refused message)
reject_link message _ = done tt

-- `write_json` of a payload that is encoded.
unfoldable pub write_json :
    {Byte : Type 0} → Calls → List ℕ → List ℕ → List Byte → Dir Byte → Run Byte (Unit {0})
write_json c target temporary payload d =
    continue (reject_link "JSON output must not contain a symlink or junction" (d target))
      (λ u. write_json_posix c target temporary payload d) d
