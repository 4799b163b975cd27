-- ===== src/Tests/Locks.antt =====
-- Two runs that want one lock, with an operating system that writes a byte at a time.
use nscscc_cpu.Base.{ℕ, false, String, List, [], ◌∷◌, Option, none, some, ◌≡◌, refl, arith}
use nscscc_cpu.Json.{Json, obj, Fields, get, lookup}
use nscscc_cpu.Locks.Write.{write_all}
use nscscc_cpu.Locks.Write.Complete.{WroteSome, write_all-WroteSome}
use nscscc_cpu.Locks.Disk.{regular, Host, Disk, set_entry, Lease, done, failed, refused}
use nscscc_cpu.Locks.Release.{
  release_validation_lock, release_validation_locks, remove_owned_lock, remove_checked,
  check_metadata, release_each,
}
use nscscc_cpu.Locks.Release.Foreign.{release_all_foreign}
use nscscc_cpu.Locks.Release.All.{release_all_frees}
use nscscc_cpu.Locks.Acquire.{
  Payload, payload_fields, Calls, lease_for, acquire_validation_lock, write_payload, finish,
}
use nscscc_cpu.Locks.World.{World, acquires, Reach, here, next, give}
use nscscc_cpu.Locks.World.Exclusive.{mutual_exclusion, release_succeeds}

-- A file of one byte that is the whole dict.
abbrev host : Host
host = record { Byte = Fields; dumps = λ fs. fs ∷ []; loads = read; unlink_fails = λ path. false }
  where
    read : List Fields → Option Json
    read [] = none
    read (fs ∷ rest) = some (obj fs)

abbrev empty_disk : Disk Fields
empty_disk = record { entry = λ path. none; content = λ i. [] }

abbrev payload : Payload
payload = record {
  iteration_id = "20260713-1415-icache-spinal";
  operation = "rtl-smoke";
  run_id = "a1";
  pid = 17;
  created_at = "2026-07-13T14:15:00+08:00";
  evaluator_sha256 = "e3b0";
}

abbrev calls : Calls
calls = record {
  open_fails = false;
  created = record { device = 1; inode = 7 };
  os_write = λ call offered. some 1;
  fsync_fails = false;
}

abbrev lock_path : String
lock_path = "/out/.locks/iterations/20260713-1415-icache-spinal.lock"

abbrev lease : Lease
lease = lease_for lock_path payload calls.created

abbrev locked_disk : Disk Fields
locked_disk = (acquire_validation_lock host calls lock_path payload empty_disk).1

first_acquires :
    acquire_validation_lock host calls lock_path payload empty_disk ≡ (done lease, locked_disk)
unfolding acquire_validation_lock write_payload finish write_all
first_acquires = refl

second_refused :
    acquire_validation_lock host calls lock_path payload locked_disk
    ≡ (failed (refused "validation lock already exists"), locked_disk)
unfolding acquire_validation_lock write_payload finish write_all
second_refused = refl

abbrev locked_world : World host
locked_world = record { disk = locked_disk; held = give (λ i. none) 0 (some lease) }

locked-Reach : Reach host empty_disk locked_world
locked-Reach = next here (acquires 0 calls lock_path payload refl (λ j l h. cc) first_acquires)

one_holder : ◌≡◌ {A = ℕ} 0 0
one_holder = mutual_exclusion host (λ p. refl) locked-Reach 0 0 lease lease refl refl refl

holder_releases :
    release_validation_lock host lease locked_disk ≡ (done tt, set_entry lock_path none locked_disk)
holder_releases = release_succeeds host (λ p. refl) locked-Reach 0 lease refl refl

-- Another run has put its own lock at the path.
abbrev stolen_disk : Disk Fields
stolen_disk = set_entry lock_path (some (regular (record { device = 1; inode = 8 }))) locked_disk

-- A lease whose file is gone, released first.
abbrev lost_lease : Lease
lost_lease = lease_for "/work/.rtl-smoke.lock" payload (record { device = 1; inode = 9 })

stolen_stays :
    ((release_validation_locks host (lost_lease ∷ lease ∷ []) stolen_disk).1.entry lock_path
      ≡ some (regular (record { device = 1; inode = 8 })))
    × ((release_validation_locks host (lost_lease ∷ lease ∷ []) stolen_disk).0
        ≡ failed (refused "validation lock release failed"))
stolen_stays =
    release_all_foreign host (lost_lease ∷ []) [] lease stolen_disk
      (regular (record { device = 1; inode = 8 })) refl refl

freed_after_failure :
    (release_validation_locks host (lease ∷ lost_lease ∷ []) locked_disk).1.entry lock_path ≡ none
unfolding acquire_validation_lock write_payload finish write_all get lookup
freed_after_failure =
    release_all_frees host [] (lost_lease ∷ []) lease locked_disk refl
      (refl, refl, (obj (payload_fields payload), refl, refl)) refl

all_released : (release_validation_locks host (lease ∷ []) locked_disk).0 ≡ done tt
unfolding acquire_validation_lock write_payload finish write_all release_validation_locks
    release_each release_validation_lock remove_owned_lock remove_checked check_metadata get lookup
all_released = refl

three_bytes :
    WroteSome {A = ℕ} []
      (1 ∷ 2 ∷ 3 ∷ [])
      (write_all (λ call offered. some 1) 3 0 (1 ∷ 2 ∷ 3 ∷ []) [])
three_bytes = write_all-WroteSome (λ call offered. some 1) 3 0 (1 ∷ 2 ∷ 3 ∷ []) [] (omega arith)
