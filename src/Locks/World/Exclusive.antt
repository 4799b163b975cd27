-- ===== src/Locks/World/Exclusive.antt =====
-- No two leases are on one path, and each holds its lock file.
use nscscc_cpu.Base.{
  ℕ, true, false, str_eq, eq_iff, ◌==◌, ==_iff, none, some, ◌≡◌, inl, inr, Bool-cases, sym, ◌∙◌,
  subst,
}
use nscscc_cpu.Locks.Disk.{same_identity, Host, Disk, set_entry, Lease, done}
use nscscc_cpu.Locks.Release.{release_validation_lock}
use nscscc_cpu.Locks.Release.Owned.{Owns, Owns-frame, release_owned}
use nscscc_cpu.Locks.Release.All.{release_other, release_content}
use nscscc_cpu.Locks.World.{World, Step, acquires, fails, releases, abandons, Reach, here, next}
use nscscc_cpu.Locks.World.Kept.{
  Inv, ReadsBack, Inv-exclusive, acquire-Owns, new_lease-Owns, give-cases, give-none,
  some_injective, true_not_false, same_identity_sym,
}

module _ (H : Host) where
  other_path :
      (w : World H) (i j : ℕ) (l k : Lease)
      → Inv H w
      → w.held i ≡ some l
      → w.held j ≡ some k
      → (i == j) ≡ false
      → str_eq l.path k.path ≡ false
  other_path w i j l k v p q other = elim (Bool-cases (str_eq l.path k.path)) [
    | inl h ↦
        let same = Inv-exclusive H w i j l k v p q ((eq_iff l.path k.path).0 h) in
        absurd (true_not_false (sym ((==_iff i j).1 same) ∙ other))
    | inr h ↦ h
  ]

  Step-Inv : {w v : World H} → ReadsBack H → Step H w v → Inv H w → Inv H v
  Step-Inv {w} reads (acquires i c path p {l} {d} free unused e) inv = record {
    own = λ j k h. elim (give-cases w.held i (some l) j k h) [
      | inl (_, q) ↦ subst (λ a. Owns H d a) (some_injective q) new.0
      | inr (_, q) ↦ subst (λ r. Owns H r.1 k) e (acquire-Owns H w c path p j k inv unused q)
    ];
    apart = λ j j' k k' h h' s. elim (give-cases w.held i (some l) j k h) [
      | inl (a, q) ↦ elim (give-cases w.held i (some l) j' k' h') [
        | inl (b, q') ↦ sym a ∙ b
        | inr (b, q') ↦ absurd (not_new l k k' new.1 q (unused j' k' q') s)
      ]
      | inr (a, q) ↦ elim (give-cases w.held i (some l) j' k' h') [
        | inl (b, q') ↦
            absurd
              (not_new l k' k new.1 q' (unused j k q) (same_identity_sym k.identity k'.identity s))
        | inr (b, q') ↦ inv.apart j j' k k' q q' s
      ]
    ];
  }
    where
      new : Owns H d l × (l.identity ≡ c.created)
      new = new_lease-Owns H c path p w.disk d l reads e

      not_new :
          (l k k' : Lease)
          → l.identity ≡ c.created
          → some l ≡ some k
          → same_identity c.created k'.identity ≡ false
          → same_identity k.identity k'.identity ≡ true
          → ⊥
      not_new l k k' f q u t = true_not_false (
          sym (subst (λ a. same_identity a.identity k'.identity ≡ true) (sym (some_injective q)) t)
          ∙ subst (λ a. same_identity a k'.identity ≡ false) (sym f) u)
  Step-Inv {w} reads (fails c path p {d} unused e) inv = record {
    own = λ j k h. subst (λ r. Owns H r.1 k) e (acquire-Owns H w c path p j k inv unused h);
    apart = inv.apart;
  }
  Step-Inv {w} reads (releases i {l} e) inv = record {
    own = λ j k h.
        let (other, q) = give-none w.held i j k h in
        let own = inv.own j k q in
        Owns-frame H w.disk (release_validation_lock H l w.disk).1 k own
          (release_other H l w.disk k.path (other_path w i j l k inv e q other))
          (release_content H l w.disk k.descriptor);
    apart = λ j j' k k' h h' s.
        inv.apart j j' k k' (give-none w.held i j k h).1 (give-none w.held i j' k' h').1 s;
  }
  Step-Inv {w} reads (abandons i) inv = record {
    own = λ j k h. inv.own j k (give-none w.held i j k h).1;
    apart = λ j j' k k' h h' s.
        inv.apart j j' k k' (give-none w.held i j k h).1 (give-none w.held i j' k' h').1 s;
  }

  Reach-Inv : {d : Disk H.Byte} {w : World H} → ReadsBack H → Reach H d w → Inv H w
  Reach-Inv reads here = record { own = λ i l h. cc; apart = λ i j l k h g s. cc }
  Reach-Inv reads (next r s) = Step-Inv reads s (Reach-Inv reads r)

  -- Mutual exclusion: in every world that processes reach by acquiring, releasing and abandoning
  -- locks, in any order and with any failures, two leases on one path are the same lease.
  pub mutual_exclusion :
      {d : Disk H.Byte} {w : World H}
      → ReadsBack H
      → Reach H d w
      → (i j : ℕ) (l k : Lease) → w.held i ≡ some l
      → w.held j ≡ some k
      → l.path ≡ k.path
      → i ≡ j
  mutual_exclusion {w} reads r i j l k = Inv-exclusive H w i j l k (Reach-Inv reads r)

  -- In such a world the holder of a lock can release it: the release succeeds and frees the path,
  -- unless the file system forbids the removal.
  pub release_succeeds :
      {d : Disk H.Byte} {w : World H}
      → ReadsBack H
      → Reach H d w
      → (i : ℕ) (l : Lease) → w.held i ≡ some l
      → H.unlink_fails l.path ≡ false
      → release_validation_lock H l w.disk ≡ (done tt, set_entry l.path none w.disk)
  release_succeeds {w} reads r i l h may =
      release_owned H l w.disk ((Reach-Inv reads r).own i l h) may
