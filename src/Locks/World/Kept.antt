-- ===== src/Locks/World/Kept.antt =====
-- The invariant: each lease holds its lock file, and no two leases share one.
use nscscc_cpu.Base.{
  str_eq_refl, ℕ, true, false, String, str_eq, eq_iff, ◌==◌, ==_iff, Option, none, some, ◌≡◌, refl,
  arith, ◌⊎◌, inl, inr, Bool-cases, Option-cases, ap, sym, ◌∙◌, subst,
}
use nscscc_cpu.Json.{obj, get, lookup}
use nscscc_cpu.Locks.Disk.{Identity, same_identity, Entry, regular, Host, Disk, Lease, done}
use nscscc_cpu.Locks.Release.{names_lease}
use nscscc_cpu.Locks.Release.Owned.{Owns, Owns-frame, same_identity_refl}
use nscscc_cpu.Locks.Acquire.{Payload, payload_fields, Calls, lease_for, acquire_validation_lock}
use nscscc_cpu.Locks.Acquire.Taken.{acquire_other, acquire_content, acquire_done, locked}
use nscscc_cpu.Locks.World.{World, give, IsUnused}

pub give-cases :
    (held : ℕ → Option Lease) (i : ℕ) (o : Option Lease) (j : ℕ) (k : Lease)
    → give held i o j ≡ some k
    → ((i ≡ j) × (o ≡ some k)) ⊎ (((i == j) ≡ false) × (held j ≡ some k))
give-cases held i o j k h = elim (Bool-cases (i == j)) [
  | inl e ↦ inl ((==_iff i j).0 e, rw (e) at h)
  | inr e ↦ inr (e, rw (e) at h)
]

pub some_injective : {l k : Lease} → some l ≡ some k → l ≡ k
some_injective h = cc

regular_injective : (a b : Identity) → some (regular a) ≡ some (regular b) → a ≡ b
regular_injective a b h = cc

pub true_not_false : true ≡ false → ⊥
true_not_false h = cc

pub same_identity_sym : (a b : Identity) → same_identity a b ≡ true → same_identity b a ≡ true
same_identity_sym a b h = ground arith

pub give-none :
    (held : ℕ → Option Lease) (i j : ℕ) (k : Lease)
    → give held i none j ≡ some k
    → ((i == j) ≡ false) × (held j ≡ some k)
give-none held i j k h = ground arith

none_not_some : {e : Entry} → some e ≡ none → ⊥
none_not_some h = cc

module _ (H : Host) where
  -- What the decoder makes of what the encoder wrote.
  abbrev pub ReadsBack : Type 0
  ReadsBack = (p : Payload) → H.loads (H.dumps (payload_fields p)) ≡ some (obj (payload_fields p))

  pub record Inv (w : World H) : Type 0 where
    pub own : (i : ℕ) (l : Lease) → w.held i ≡ some l → Owns H w.disk l
    pub apart :
        (i j : ℕ) (l k : Lease)
        → w.held i ≡ some l
        → w.held j ≡ some k
        → same_identity l.identity k.identity ≡ true
        → i ≡ j

  -- Two leases on one path are one lease.
  pub Inv-exclusive :
      (w : World H) (i j : ℕ) (l k : Lease)
      → Inv w
      → w.held i ≡ some l
      → w.held j ≡ some k
      → l.path ≡ k.path
      → i ≡ j
  Inv-exclusive w i j l k v p q same =
      let (e, _, _) = v.own i l p in
      let (f, _, _) = v.own j k q in
      let g = regular_injective l.identity k.identity (sym e ∙ ap w.disk.entry same ∙ f) in
      v.apart i j l k p q
        (subst (λ a. same_identity l.identity a ≡ true) g (same_identity_refl l.identity))

  -- The new lease names itself in the metadata that it wrote.
  lease_for_named :
      (path : String) (p : Payload) (i : Identity)
      → names_lease (lease_for path p i) (obj (payload_fields p)) ≡ true
  unfolding get lookup
  lease_for_named path p i =
      rw (str_eq_refl p.iteration_id, str_eq_refl p.operation, str_eq_refl p.run_id) refl

  lease_for-Owns :
      (path : String) (p : Payload) (i : Identity) (d : Disk H.Byte)
      → ReadsBack
      → Owns H (locked H path i p d) (lease_for path p i)
  lease_for-Owns path p i d reads = (
    rw (str_eq_refl path) refl,
    refl,
    (obj (payload_fields p), rw (same_identity_refl i) (reads p), lease_for_named path p i),
  )

  different_path :
      (d : Disk H.Byte) (path : String) (l : Lease)
      → d.entry path ≡ none
      → d.entry l.path ≡ some (regular l.identity)
      → str_eq path l.path ≡ false
  different_path d path l e f = elim (Bool-cases (str_eq path l.path)) [
    | inl h ↦ absurd (none_not_some (sym (ap d.entry ((eq_iff path l.path).0 h) ∙ f) ∙ e))
    | inr h ↦ h
  ]

  existing_unchanged :
      (c : Calls) (path : String) (p : Payload) (d : Disk H.Byte) (e : Entry)
      → d.entry path ≡ some e
      → (acquire_validation_lock H c path p d).1 ≡ d
  unfolding acquire_validation_lock
  existing_unchanged c path p d e h = rw (h, acquire_validation_lock) refl

  -- An acquisition leaves the other leases what they hold.
  pub acquire-Owns :
      (w : World H) (c : Calls) (path : String) (p : Payload) (j : ℕ) (k : Lease)
      → Inv w
      → IsUnused H w c.created
      → w.held j ≡ some k
      → Owns H (acquire_validation_lock H c path p w.disk).1 k
  acquire-Owns w c path p j k v unused h = elim (Option-cases (w.disk.entry path)) [
    | inl e ↦
        let own = v.own j k h in
        let (f, o, _) = own in
        Owns-frame H w.disk (acquire_validation_lock H c path p w.disk).1 k own
          (acquire_other H c path p w.disk k.path (different_path w.disk path k e f))
          (acquire_content H c path p w.disk k.descriptor
            (subst (λ i. same_identity c.created i ≡ false) (sym o) (unused j k h)))
    | inr (e, f) ↦
        subst (λ d. Owns H d k) (sym (existing_unchanged c path p w.disk e f)) (v.own j k h)
  ]

  pub new_lease-Owns :
      (c : Calls) (path : String) (p : Payload) (d d' : Disk H.Byte) (l : Lease)
      → ReadsBack
      → acquire_validation_lock H c path p d ≡ (done l, d')
      → Owns H d' l × (l.identity ≡ c.created)
  new_lease-Owns c path p d d' l reads h =
      let (_, e, f) = acquire_done H c path p d d' l h in
      (
        subst (λ k. Owns H d' k) (sym e)
            (subst (λ a. Owns H a (lease_for path p c.created)) (sym f)
              (lease_for-Owns path p c.created d reads)),
        ap (λ k. k.identity) e,
      )
