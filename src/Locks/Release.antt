-- ===== src/Locks/Release.antt =====
-- `_remove_owned_lock`, `release_validation_lock`, `release_validation_locks` and
-- `abandon_validation_lock` of tools/refactor.py. The descriptor is closed on every way out, which
-- is the end of the lease.
pub mod Owned
pub mod All
pub mod Foreign
use nscscc_cpu.Base.{
  Bool, true, false, not, ◌&&◌, ◌||◌, String, List, [], ◌∷◌, ◌++◌, Option, none, some,
  if◌then◌else◌,
}
use nscscc_cpu.Json.{Json, null, bool, int, float, str, arr, obj, Fields, get, is_text}
use nscscc_cpu.Locks.Disk.{
  Identity, same_identity, Entry, identity_of, is_regular, Host, Disk, set_entry, Lease, Failure,
  refused, os_error, Attempt, done, failed,
}

-- The three fields of the stored metadata that are compared.
abbrev pub names_lease : Lease → Json → Bool
names_lease l (obj stored) =
    is_text l.iteration_id (get "iteration_id" stored)
    && is_text l.operation (get "operation" stored)
    && is_text l.run_id (get "run_id" stored)
names_lease l _ = false

-- The entry is a regular file, and it and the open file are the one that the lease created.
abbrev pub is_owned : Lease → Entry → Bool
is_owned l e =
    is_regular e
    && same_identity l.descriptor l.identity
    && same_identity (identity_of e) l.identity

module _ (H : Host) where
  abbrev pub unlink : Lease → Disk H.Byte → Attempt (Unit {0}) × Disk H.Byte
  unlink l d =
      if H.unlink_fails l.path then (failed os_error, d) else (done tt, set_entry l.path none d)

  -- `none` where the metadata need not be read, else the document that is read.
  unfoldable pub check_metadata : Lease → Disk H.Byte → Attempt (Unit {0})
  check_metadata l d = elim (H.loads (d.content l.descriptor)) [
    | none ↦ failed (refused "validation lock metadata is unreadable")
    | some stored ↦
        if names_lease l stored
        then done tt
        else failed (refused "validation lock metadata changed before release")
  ]

  -- The removal once the entry is known to be the lease's own.
  unfoldable pub remove_checked : Bool → Lease → Disk H.Byte → Attempt (Unit {0}) × Disk H.Byte
  remove_checked allow_partial l d =
      if allow_partial
      then unlink l d
      else (elim (check_metadata l d) [ failed why ↦ (failed why, d) | done u ↦ unlink l d ])

  unfoldable pub remove_owned_lock : Bool → Lease → Disk H.Byte → Attempt (Unit {0}) × Disk H.Byte
  remove_owned_lock allow_partial l d = elim (d.entry l.path) [
    | none ↦ (failed (refused "validation lock disappeared before release"), d)
    | some e ↦
        if not (is_owned l e)
        then (failed (refused "validation lock ownership changed before release"), d)
        else remove_checked allow_partial l d
  ]

  unfoldable pub release_validation_lock : Lease → Disk H.Byte → Attempt (Unit {0}) × Disk H.Byte
  release_validation_lock l d = remove_owned_lock false l d

  -- The loop, on the leases in the order in which they are released, with the failures so far.
  unfoldable pub release_each :
      List (String × Failure) → List Lease → Disk H.Byte → List (String × Failure) × Disk H.Byte
  release_each failures [] d = (failures, d)
  release_each failures (l ∷ ls) d =
      let r = release_validation_lock l d in
      elim r.0 [
        | done u ↦ release_each failures ls r.1
        | failed why ↦ release_each (failures ++ (l.path, why) ∷ []) ls r.1
      ]

  abbrev pub reversed : List Lease → List Lease
  reversed [] = []
  reversed (l ∷ ls) = reversed ls ++ l ∷ []

  -- Both exceptions that a release raises here are subclasses of Exception.
  abbrev pub verdict : List (String × Failure) → Attempt (Unit {0})
  verdict [] = done tt
  verdict (failure ∷ failures) = failed (refused "validation lock release failed")

  unfoldable pub release_validation_locks :
      List Lease → Disk H.Byte → Attempt (Unit {0}) × Disk H.Byte
  release_validation_locks leases d =
      let r = release_each [] (reversed leases) d in (verdict r.0, r.1)
