-- ===== src/Locks/Acquire.antt =====
-- `_acquire_validation_lock` and the payload of `acquire_iteration_lock` and `acquire_smoke_lock`
-- in tools/refactor.py, under POSIX.
pub mod Taken
use nscscc_cpu.Base.{
  ℕ, Bool, true, false, not, String, elem, List, [], ◌∷◌, Option, none, some, if◌then◌else◌, length,
  pos,
}
use nscscc_cpu.Json.{Json, int, str, Fields, end, field}
use nscscc_cpu.Locks.Write.{Written, all_written, stopped, out_of_fuel, write_all}
use nscscc_cpu.Locks.Disk.{
  Identity, Entry, regular, Host, Disk, set_entry, set_content, Lease, Failure, refused, os_error,
  Attempt, done, failed,
}
use nscscc_cpu.Locks.Release.{remove_owned_lock}

pub record Payload : Type 0 where
  pub iteration_id : String
  pub operation : String
  pub run_id : String
  pub pid : ℕ
  pub created_at : String
  pub evaluator_sha256 : String

-- The dict, its keys in the order in which `sort_keys=True` writes them.
abbrev pub payload_fields : Payload → Fields
payload_fields p = field "created_at" (str p.created_at) (
    field "evaluator_sha256" (str p.evaluator_sha256) (
      field "iteration_id" (str p.iteration_id) (
        field "operation" (str p.operation) (
          field "pid" (int (pos p.pid))
            (field "run_id" (str p.run_id) (field "schema_version" (int (pos 1)) end))))))

-- What the operating system does in one acquisition: whether the file can be created, the file that
-- it then is, what each write reports, and whether the file reaches the disk.
pub record Calls : Type 0 where
  pub open_fails : Bool
  pub created : Identity
  pub os_write : ℕ → ℕ → Option ℕ
  pub fsync_fails : Bool

abbrev pub lease_for : String → Payload → Identity → Lease
lease_for path p i = record {
  path = path;
  iteration_id = p.iteration_id;
  operation = p.operation;
  run_id = p.run_id;
  descriptor = i;
  identity = i;
}

-- `except BaseException`: the partial lock goes, and the exception is raised again unless the
-- removal raises another.
abbrev pub raise_again : Attempt (Unit {0}) → Attempt Lease
raise_again (done u) = failed os_error
raise_again (failed why) = failed why

module _ (H : Host) where
  unfoldable pub give_up : Lease → Disk H.Byte → Attempt Lease × Disk H.Byte
  give_up l d = let r = remove_owned_lock H true l d in (raise_again r.0, r.1)

  -- The bytes written and `os.fsync`, on the disk that holds the new file.
  unfoldable pub finish : Calls → Lease → Written H.Byte → Disk H.Byte → Attempt Lease × Disk H.Byte
  finish c l (all_written bytes) d =
      if c.fsync_fails
      then give_up l (set_content l.descriptor bytes d)
      else (done l, set_content l.descriptor bytes d)
  finish c l (stopped bytes) d = give_up l (set_content l.descriptor bytes d)
  finish c l out_of_fuel d = give_up l d

  unfoldable pub write_payload : Calls → Payload → Lease → Disk H.Byte → Attempt Lease × Disk H.Byte
  write_payload c p l d =
      finish c l
        (write_all c.os_write (length (H.dumps (payload_fields p))) 0 (H.dumps (payload_fields p))
          [])
        d

  -- The disk with the new file, which is empty.
  abbrev pub with_file : String → Identity → Disk H.Byte → Disk H.Byte
  with_file path i d = set_content i [] (set_entry path (some (regular i)) d)

  -- `O_CREAT | O_EXCL | O_NOFOLLOW`: whatever is at the name refuses the lock.
  unfoldable pub acquire_validation_lock :
      Calls → String → Payload → Disk H.Byte → Attempt Lease × Disk H.Byte
  acquire_validation_lock c path p d = elim (d.entry path) [
    | some e ↦ (failed (refused "validation lock already exists"), d)
    | none ↦
        if c.open_fails
        then (failed os_error, d)
        else write_payload c p (lease_for path p c.created) (with_file path c.created d)
  ]

  abbrev pub lock_operations : List String
  lock_operations = "chiplab-overlay" ∷ "rtl-smoke" ∷ "identity-compare" ∷ []

  -- `resolved` is what the checks of the path make of it: the resolved path, or their refusal.
  unfoldable pub acquire_iteration_lock :
      Calls → Attempt String → Payload → Disk H.Byte → Attempt Lease × Disk H.Byte
  acquire_iteration_lock c resolved p d =
      if not (elem p.operation lock_operations)
      then (failed (refused "unsupported validation lock operation"), d)
      else (elim resolved [
        | failed why ↦ (failed why, d)
        | done path ↦ acquire_validation_lock c path p d
      ])

  unfoldable pub acquire_smoke_lock :
      Calls → Attempt String → Payload → Disk H.Byte → Attempt Lease × Disk H.Byte
  acquire_smoke_lock c resolved p d = elim resolved [
    | failed why ↦ (failed why, d)
    | done path ↦ acquire_validation_lock c path (record p { operation = "rtl-smoke-workspace" }) d
  ]
