-- ===== src/Locks/Acquire/Taken.antt =====
-- What an acquisition does to the disk, and what a lease that it returns holds.
use nscscc_cpu.Base.{
  true, false, String, str_eq, List, [], length, none, ◌≡◌, refl, arith, inl, inr, Bool-cases,
  Option-cases, ap, sym, ◌∙◌,
}
use nscscc_cpu.Locks.Write.{Written, all_written, stopped, out_of_fuel}
use nscscc_cpu.Locks.Write.Complete.{WroteSome, write_all-WroteSome}
use nscscc_cpu.Locks.Disk.{
  Identity, same_identity, Host, Disk, set_content, Lease, Failure, Attempt, done, failed,
}
use nscscc_cpu.Locks.Release.{remove_owned_lock}
use nscscc_cpu.Locks.Release.Owned.{remove_owned_lock_other, remove_owned_lock_content}
use nscscc_cpu.Locks.Acquire.{
  Payload, payload_fields, Calls, lease_for, raise_again, give_up, finish, write_payload, with_file,
  acquire_validation_lock,
}

failed_not_done : {why : Failure} {l : Lease} → failed why ≡ done l → ⊥
failed_not_done h = cc

done_injective : (l k : Lease) → done l ≡ done k → l ≡ k
done_injective l k h = cc

module _ (H : Host) where
  give_up_other :
      (l : Lease) (d : Disk H.Byte) (q : String)
      → str_eq l.path q ≡ false
      → (give_up H l d).1.entry q ≡ d.entry q
  unfolding give_up
  give_up_other l d q h = remove_owned_lock_other H true l d q h

  give_up_content :
      (l : Lease) (d : Disk H.Byte) (i : Identity) → (give_up H l d).1.content i ≡ d.content i
  unfolding give_up
  give_up_content l d i = remove_owned_lock_content H true l d i

  finish_other :
      (c : Calls) (l : Lease) (w : Written H.Byte) (d : Disk H.Byte) (q : String)
      → str_eq l.path q ≡ false
      → (finish H c l w d).1.entry q ≡ d.entry q
  unfolding finish
  finish_other c l (all_written bytes) d q h =
      ground (arith, give_up_other l (set_content l.descriptor bytes d) q h)
  finish_other c l (stopped bytes) d q h = give_up_other l (set_content l.descriptor bytes d) q h
  finish_other c l out_of_fuel d q h = give_up_other l d q h

  finish_content :
      (c : Calls) (l : Lease) (w : Written H.Byte) (d : Disk H.Byte) (i : Identity)
      → same_identity l.descriptor i ≡ false
      → (finish H c l w d).1.content i ≡ d.content i
  unfolding finish
  finish_content c l (all_written bytes) d i h =
      ground (arith, give_up_content l (set_content l.descriptor bytes d) i)
  finish_content c l (stopped bytes) d i h =
      give_up_content l (set_content l.descriptor bytes d) i ∙ rw (h) refl
  finish_content c l out_of_fuel d i h = give_up_content l d i

  write_payload_other :
      (c : Calls) (p : Payload) (l : Lease) (d : Disk H.Byte) (q : String)
      → str_eq l.path q ≡ false
      → (write_payload H c p l d).1.entry q ≡ d.entry q
  unfolding write_payload
  write_payload_other c p l d q h = finish_other c l _ d q h

  write_payload_content :
      (c : Calls) (p : Payload) (l : Lease) (d : Disk H.Byte) (i : Identity)
      → same_identity l.descriptor i ≡ false
      → (write_payload H c p l d).1.content i ≡ d.content i
  unfolding write_payload
  write_payload_content c p l d i h = finish_content c l _ d i h

  -- Names but the lock's own are left alone, whatever the outcome.
  pub acquire_other :
      (c : Calls) (path : String) (p : Payload) (d : Disk H.Byte) (q : String)
      → str_eq path q ≡ false
      → (acquire_validation_lock H c path p d).1.entry q ≡ d.entry q
  unfolding acquire_validation_lock
  acquire_other c path p d q h = ground (
    arith,
    write_payload_other c p (lease_for path p c.created) (with_file H path c.created d) q h,
  )

  pub acquire_content :
      (c : Calls) (path : String) (p : Payload) (d : Disk H.Byte) (i : Identity)
      → same_identity c.created i ≡ false
      → (acquire_validation_lock H c path p d).1.content i ≡ d.content i
  unfolding acquire_validation_lock
  acquire_content c path p d i h = ground (
    arith,
    write_payload_content c p (lease_for path p c.created) (with_file H path c.created d) i h,
  )

  give_up_fails : (l : Lease) (d : Disk H.Byte) {k : Lease} → (give_up H l d).0 ≡ done k → ⊥
  unfolding give_up
  give_up_fails l d h = raised (remove_owned_lock H true l d).0 h
    where
      raised : (a : Attempt (Unit {0})) {k : Lease} → raise_again a ≡ done k → ⊥
      raised (done u) h = cc
      raised (failed why) h = cc

  -- The disk after an acquisition that succeeds.
  abbrev pub locked : String → Identity → Payload → Disk H.Byte → Disk H.Byte
  locked path i p d = set_content i (H.dumps (payload_fields p)) (with_file H path i d)

  finish_done :
      (c : Calls) (l : Lease) (payload : List H.Byte) (w : Written H.Byte) (d : Disk H.Byte)
      {k : Lease}
      → WroteSome [] payload w
      → (finish H c l w d).0 ≡ done k
      → finish H c l w d ≡ (done l, set_content l.descriptor payload d)
  unfolding finish
  finish_done c l payload w d (inl e) h = elim (Bool-cases c.fsync_fails) [
    | inl f ↦ absurd (give_up_fails l (set_content l.descriptor payload d) (rw (e, finish, f) at h))
    | inr f ↦ rw (e, finish, f) refl
  ]
  finish_done c l payload w d (inr (rest, part, e, q)) h =
      absurd (give_up_fails l (set_content l.descriptor part d) (rw (q, finish) at h))

  write_payload_done :
      (c : Calls) (p : Payload) (l : Lease) (d : Disk H.Byte) {k : Lease}
      → (write_payload H c p l d).0 ≡ done k
      → write_payload H c p l d ≡ (done l, set_content l.descriptor (H.dumps (payload_fields p)) d)
  unfolding write_payload
  write_payload_done c p l d h =
      let payload = H.dumps (payload_fields p) in
      finish_done c l payload _ d
        (write_all-WroteSome c.os_write (length payload) 0 payload [] (omega arith)) h

  pair_done :
      {l k : Lease} {d d' : Disk H.Byte}
      → ◌≡◌ {A = Attempt Lease × Disk H.Byte} (done l, d) (done k, d')
      → (k ≡ l) × (d' ≡ d)
  pair_done h = (done_injective _ _ (ap (λ r. r.0) (sym h)), ap (λ r. r.1) (sym h))

  -- A lease is returned only if the name was free. The disk then has the lock file there, with the
  -- whole of its metadata.
  pub acquire_done :
      (c : Calls) (path : String) (p : Payload) (d d' : Disk H.Byte) (l : Lease)
      → acquire_validation_lock H c path p d ≡ (done l, d')
      → (d.entry path ≡ none) × (l ≡ lease_for path p c.created) × (d' ≡ locked path c.created p d)
  unfolding acquire_validation_lock write_payload finish
  acquire_done c path p d d' l h = elim (Option-cases (d.entry path)) [
    | inl e ↦ elim (Bool-cases c.open_fails) [
      | inl f ↦ absurd (failed_not_done (ap (λ r. r.0) (rw (e, f, acquire_validation_lock) at h)))
      | inr f ↦
          let h' = rw (e, f, acquire_validation_lock) at h in
          let (same_lease, same_disk) = pair_done (
            sym (
              write_payload_done c p (lease_for path p c.created) (with_file H path c.created d)
                (ap (λ r. r.0) h'))
            ∙ h') in
          (e, same_lease, same_disk)
    ]
    | inr (e, f) ↦ absurd (failed_not_done (ap (λ r. r.0) (rw (f, acquire_validation_lock) at h)))
  ]
