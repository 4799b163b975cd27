-- ===== src/Locks/World.antt =====
-- Processes that take and give up validation locks, one operation at a time and in any order.
pub mod Kept
pub mod Exclusive
use nscscc_cpu.Base.{ℕ, Bool, false, String, ◌==◌, Option, none, some, if◌then◌else◌, ◌≡◌}
use nscscc_cpu.Locks.Disk.{
  Identity, same_identity, Host, Disk, Lease, Failure, Attempt, done, failed,
}
use nscscc_cpu.Locks.Release.{release_validation_lock}
use nscscc_cpu.Locks.Acquire.{Payload, Calls, acquire_validation_lock}

-- The lease in each slot: a variable of some process, with the descriptor it has open.
pub record World (H : Host) : Type 0 where
  pub disk : Disk H.Byte
  pub held : ℕ → Option Lease

abbrev pub give : (ℕ → Option Lease) → ℕ → Option Lease → ℕ → Option Lease
give held i o j = if i == j then o else held j

module _ (H : Host) where
  -- The kernel gives a new file no identity that an open file has.
  abbrev pub IsUnused : World H → Identity → Type 0
  IsUnused w i = (j : ℕ) (l : Lease) → w.held j ≡ some l → same_identity i l.identity ≡ false

  pub data Step (w : World H) : World H → Type 0 where
    acquires :
        (i : ℕ) (c : Calls) (path : String) (p : Payload) {l : Lease} {d : Disk H.Byte}
        → w.held i ≡ none
        → IsUnused w c.created
        → acquire_validation_lock H c path p w.disk ≡ (done l, d)
        → Step w (record { disk = d; held = give w.held i (some l) })
    fails :
        (c : Calls) (path : String) (p : Payload) {why : Failure} {d : Disk H.Byte}
        → IsUnused w c.created
        → acquire_validation_lock H c path p w.disk ≡ (failed why, d)
        → Step w (record { disk = d; held = w.held })
    -- the descriptor is closed whether the lock could be removed or not
    releases :
        (i : ℕ) {l : Lease}
        → w.held i ≡ some l
        → Step w
            (record { disk = (release_validation_lock H l w.disk).1; held = give w.held i none })
    -- `abandon_validation_lock`, and the end of a process: the file stays
    abandons : (i : ℕ) → Step w (record { disk = w.disk; held = give w.held i none })

  abbrev pub start : Disk H.Byte → World H
  start d = record { disk = d; held = λ i. none }

  pub data Reach (d : Disk H.Byte) : World H → Type 0 where
    here : Reach d (start d)
    next : {v w : World H} → Reach d v → Step v w → Reach d w
