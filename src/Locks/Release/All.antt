-- ===== src/Locks/Release/All.antt =====
-- `release_validation_locks`: a failure stops no other release.
use nscscc_cpu.Base.{
  Bool, true, false, not, String, str_eq, str_eq_refl, List, [], ◌∷◌, ◌++◌, all, none, ◌≡◌, refl,
  arith, ◌⊎◌, inl, inr, and-true_parts, not-true, all-append, ap, ◌∙◌,
}
use nscscc_cpu.Locks.Disk.{Identity, Host, Disk, Lease, Failure, Attempt, done, failed}
use nscscc_cpu.Locks.Release.{
  remove_checked, remove_owned_lock, release_validation_lock, release_each, reversed,
  release_validation_locks,
}
use nscscc_cpu.Locks.Release.Owned.{
  Owns, Owns-frame, remove_owned_lock_other, remove_owned_lock_content, release_owned,
}

pub Attempt-cases : (a : Attempt (Unit {0})) → (a ≡ done tt) ⊎ ((why : Failure) × (a ≡ failed why))
Attempt-cases (done tt) = inl refl
Attempt-cases (failed why) = inr (why, refl)

abbrev differs : Lease → Lease → Bool
differs l k = not (str_eq k.path l.path)

append_assoc : (xs ys zs : List Lease) → (xs ++ ys) ++ zs ≡ xs ++ (ys ++ zs)
append_assoc [] ys zs = refl
append_assoc (x ∷ xs) ys zs = ap (λ ws. x ∷ ws) (append_assoc xs ys zs)

module _ (H : Host) where
  pub release_other :
      (l : Lease) (d : Disk H.Byte) (q : String)
      → str_eq l.path q ≡ false
      → (release_validation_lock H l d).1.entry q ≡ d.entry q
  unfolding release_validation_lock
  release_other l d q h = remove_owned_lock_other H false l d q h

  pub release_content :
      (l : Lease) (d : Disk H.Byte) (i : Identity)
      → (release_validation_lock H l d).1.content i ≡ d.content i
  unfolding release_validation_lock
  release_content l d i = remove_owned_lock_content H false l d i

  -- The loop goes on to the disk of the release, whatever its outcome was.
  release_each_step :
      (fs : List (String × Failure)) (k : Lease) (ls : List Lease) (d : Disk H.Byte)
      → (gs : List (String × Failure)) × (release_each H fs (k ∷ ls) d
          ≡ release_each H gs ls (release_validation_lock H k d).1)
  unfolding release_each
  release_each_step fs k ls d = elim (Attempt-cases (release_validation_lock H k d).0) [
    | inl e ↦ (fs, rw (e, release_each) refl)
    | inr (why, e) ↦ (fs ++ (k.path, why) ∷ [], rw (e, release_each) refl)
  ]

  -- A free name stays free.
  release_keeps_free :
      (l : Lease) (d : Disk H.Byte) (q : String)
      → d.entry q ≡ none
      → (release_validation_lock H l d).1.entry q ≡ none
  unfolding release_validation_lock remove_owned_lock remove_checked
  release_keeps_free l d q h = ground arith

  release_each_keeps_free :
      (fs : List (String × Failure)) (ls : List Lease) (d : Disk H.Byte) (q : String)
      → d.entry q ≡ none
      → (release_each H fs ls d).1.entry q ≡ none
  unfolding release_each
  release_each_keeps_free fs [] d q h = h
  release_each_keeps_free fs (k ∷ ls) d q h =
      let (gs, e) = release_each_step fs k ls d in
      rw (e) (release_each_keeps_free gs ls _ q (release_keeps_free k d q h))

  release_each_frees :
      (fs : List (String × Failure)) (xs ys : List Lease) (l : Lease) (d : Disk H.Byte)
      → all (differs l) xs ≡ true
      → Owns H d l
      → H.unlink_fails l.path ≡ false
      → (release_each H fs (xs ++ l ∷ ys) d).1.entry l.path ≡ none
  release_each_frees fs [] ys l d apart own may =
      let (gs, e) = release_each_step fs l ys d in
      rw (e) (
        release_each_keeps_free gs ys _ l.path
          (rw (release_owned H l d own may, str_eq_refl l.path) refl))
  release_each_frees fs (k ∷ xs) ys l d apart own may =
      let (gs, e) = release_each_step fs k (xs ++ l ∷ ys) d in
      let (a, b) = and-true_parts (differs l k) (all (differs l) xs) apart in
      rw (e) (
        release_each_frees gs xs ys l (release_validation_lock H k d).1 b
          (Owns-frame H d (release_validation_lock H k d).1 l own
            (release_other k d l.path (not-true (str_eq k.path l.path) a))
            (release_content k d l.descriptor))
          may)

  pub reversed-append :
      (xs : List Lease) (l : Lease) (ys : List Lease)
      → reversed H (xs ++ l ∷ ys) ≡ reversed H ys ++ l ∷ reversed H xs
  reversed-append [] l ys = refl
  reversed-append (x ∷ xs) l ys =
      ap (λ zs. zs ++ x ∷ []) (reversed-append xs l ys)
      ∙ append_assoc (reversed H ys) (l ∷ reversed H xs) (x ∷ [])

  pub all-reversed :
      (p : Lease → Bool) (xs : List Lease) → all p xs ≡ true → all p (reversed H xs) ≡ true
  all-reversed p [] h = refl
  all-reversed p (x ∷ xs) h =
      let (a, b) = and-true_parts (p x) (all p xs) h in
      rw (all-append p (reversed H xs) (x ∷ []), all-reversed p xs b, a) refl

  -- A lease that still has its lock file is released, whatever happens to the other leases: those
  -- that are released before it have other paths.
  pub release_all_frees :
      (xs ys : List Lease) (l : Lease) (d : Disk H.Byte)
      → all (differs l) ys ≡ true
      → Owns H d l
      → H.unlink_fails l.path ≡ false
      → (release_validation_locks H (xs ++ l ∷ ys) d).1.entry l.path ≡ none
  unfolding release_validation_locks
  release_all_frees xs ys l d apart own may = rw (reversed-append xs l ys) (
      release_each_frees [] (reversed H ys) (reversed H xs) l d (all-reversed (differs l) ys apart)
        own may)
