-- ===== src/Locks/Release/Owned.antt =====
-- What the removal of a lock leaves alone, when it refuses, and when it succeeds.
use nscscc_cpu.Base.{Bool, true, false, String, str_eq, none, some, ◌≡◌, refl, arith, ap, ◌∙◌}
use nscscc_cpu.Json.{Json}
use nscscc_cpu.Locks.Disk.{
  Identity, same_identity, Entry, regular, identity_of, Host, Disk, set_entry, Lease, refused, done,
  failed,
}
use nscscc_cpu.Locks.Release.{
  names_lease, is_owned, check_metadata, remove_checked, remove_owned_lock, release_validation_lock,
}

pub same_identity_refl : (i : Identity) → same_identity i i ≡ true
same_identity_refl i = ground arith

owned_entry : (l : Lease) → l.descriptor ≡ l.identity → is_owned l (regular l.identity) ≡ true
owned_entry l o = rw (o, same_identity_refl l.identity) refl

module _ (H : Host) where
  -- The lease's file is at its path, open, and holds metadata that name the lease.
  abbrev pub Owns : Disk H.Byte → Lease → Type 0
  Owns d l =
      (d.entry l.path ≡ some (regular l.identity))
      × (l.descriptor ≡ l.identity)
      × ((stored : Json) × (H.loads (d.content l.descriptor) ≡ some stored)
          × (names_lease l stored ≡ true))

  pub Owns-frame :
      (d d' : Disk H.Byte) (l : Lease)
      → Owns d l
      → d'.entry l.path ≡ d.entry l.path
      → d'.content l.descriptor ≡ d.content l.descriptor
      → Owns d' l
  Owns-frame d d' l (e, o, (stored, p, q)) same_entry same_content =
      (same_entry ∙ e, o, (stored, ap H.loads same_content ∙ p, q))

  remove_checked_other :
      (partial : Bool) (l : Lease) (d : Disk H.Byte) (q : String)
      → str_eq l.path q ≡ false
      → (remove_checked H partial l d).1.entry q ≡ d.entry q
  unfolding remove_checked
  remove_checked_other partial l d q h = ground arith

  -- Another name is left alone.
  pub remove_owned_lock_other :
      (partial : Bool) (l : Lease) (d : Disk H.Byte) (q : String)
      → str_eq l.path q ≡ false
      → (remove_owned_lock H partial l d).1.entry q ≡ d.entry q
  unfolding remove_owned_lock
  remove_owned_lock_other partial l d q h = ground (arith, remove_checked_other partial l d q h)

  remove_checked_content :
      (partial : Bool) (l : Lease) (d : Disk H.Byte) (i : Identity)
      → (remove_checked H partial l d).1.content i ≡ d.content i
  unfolding remove_checked
  remove_checked_content partial l d i = ground arith

  pub remove_owned_lock_content :
      (partial : Bool) (l : Lease) (d : Disk H.Byte) (i : Identity)
      → (remove_owned_lock H partial l d).1.content i ≡ d.content i
  unfolding remove_owned_lock
  remove_owned_lock_content partial l d i = ground (arith, remove_checked_content partial l d i)

  -- A lock file that is not the lease's own, such as one that another run has put in its place, is
  -- refused and stays.
  pub release_other_file :
      (l : Lease) (d : Disk H.Byte) (e : Entry)
      → d.entry l.path ≡ some e
      → same_identity (identity_of e) l.identity ≡ false
      → release_validation_lock H l d
        ≡ (failed (refused "validation lock ownership changed before release"), d)
  unfolding release_validation_lock remove_owned_lock
  release_other_file l d e h other = ground arith

  -- The owner's release removes the lock.
  pub release_owned :
      (l : Lease) (d : Disk H.Byte)
      → Owns d l
      → H.unlink_fails l.path ≡ false
      → release_validation_lock H l d ≡ (done tt, set_entry l.path none d)
  unfolding release_validation_lock remove_owned_lock remove_checked check_metadata
  release_owned l d (e, o, (stored, p, q)) may =
      let own = owned_entry l o in
      rw
        (
          release_validation_lock, remove_owned_lock, e, own, remove_checked, check_metadata, p, q,
          may,
        )
        refl
