-- ===== src/Locks/Release/Foreign.antt =====
-- `release_validation_locks` and the lock files of other runs.
use nscscc_cpu.Base.{
  Bool, true, false, not, ◌||◌, String, str_eq, str_eq_refl, eq_iff, List, [], ◌∷◌, ◌++◌, all,
  all-append, is_empty, some, ◌≡◌, refl, sym, ap, ◌∙◌, subst, inl, inr, and-true_parts, not-true,
  Bool-cases,
}
use nscscc_cpu.Locks.Disk.{
  same_identity, Entry, identity_of, Host, Disk, Lease, Failure, Attempt, refused, failed,
}
use nscscc_cpu.Locks.Release.{
  release_validation_lock, release_each, reversed, verdict, release_validation_locks,
}
use nscscc_cpu.Locks.Release.Owned.{release_other_file}
use nscscc_cpu.Locks.Release.All.{Attempt-cases, release_other, reversed-append, all-reversed}

-- The lease has another path, or did not create the file that stands there.
abbrev pub is_foreign : String → Entry → Lease → Bool
is_foreign path e l = not (str_eq l.path path) || not (same_identity (identity_of e) l.identity)

grown : {A : Type 0} (fs : List A) (f : A) → is_empty (fs ++ f ∷ []) ≡ false
grown [] f = refl
grown (g ∷ fs) f = refl

module _ (H : Host) where
  -- One release leaves the file.
  release_stays :
      (k : Lease) (d : Disk H.Byte) (path : String) (e : Entry)
      → d.entry path ≡ some e
      → is_foreign path e k ≡ true
      → (release_validation_lock H k d).1.entry path ≡ some e
  release_stays k d path e h foreign = elim (Bool-cases (str_eq k.path path)) [
    | inl same ↦
        let there : k.path ≡ path = (eq_iff k.path path).0 same in
        let other : same_identity (identity_of e) k.identity ≡ false =
          not-true (same_identity (identity_of e) k.identity) (rw (same) at foreign) in
        ap (λ (r : Attempt (Unit {0}) × Disk H.Byte). r.1.entry path)
          (release_other_file H k d e (subst (λ p. d.entry p ≡ some e) (sym there) h) other)
        ∙ h
    | inr apart ↦ release_other H k d path apart ∙ h
  ]

  release_each_stays :
      (fs : List (String × Failure)) (ls : List Lease) (d : Disk H.Byte) (path : String) (e : Entry)
      → d.entry path ≡ some e
      → all (is_foreign path e) ls ≡ true
      → (release_each H fs ls d).1.entry path ≡ some e
  unfolding release_each
  release_each_stays fs [] d path e h foreign = h
  release_each_stays fs (k ∷ ls) d path e h foreign =
      let (a, b) = and-true_parts (is_foreign path e k) (all (is_foreign path e) ls) foreign in
      let stays = release_stays k d path e h a in
      elim (Attempt-cases (release_validation_lock H k d).0) [
        | inl x ↦ rw (x, release_each) (release_each_stays fs ls _ path e stays b)
        | inr (why, x) ↦
            rw (x, release_each) (release_each_stays (fs ++ (k.path, why) ∷ []) ls _ path e stays b)
      ]

  failures_stay :
      (fs : List (String × Failure)) (ls : List Lease) (d : Disk H.Byte)
      → is_empty fs ≡ false
      → is_empty (release_each H fs ls d).0 ≡ false
  unfolding release_each
  failures_stay fs [] d h = h
  failures_stay fs (k ∷ ls) d h = elim (Attempt-cases (release_validation_lock H k d).0) [
    | inl x ↦ rw (x, release_each) (failures_stay fs ls _ h)
    | inr (why, x) ↦
        rw (x, release_each)
          (failures_stay (fs ++ (k.path, why) ∷ []) ls _ (grown fs (k.path, why)))
  ]

  -- The release of the lease whose file is gone is among the failures.
  release_each_fails :
      (fs : List (String × Failure)) (xs ys : List Lease) (l : Lease) (d : Disk H.Byte) (e : Entry)
      → d.entry l.path ≡ some e
      → all (is_foreign l.path e) xs ≡ true
      → same_identity (identity_of e) l.identity ≡ false
      → is_empty (release_each H fs (xs ++ l ∷ ys) d).0 ≡ false
  unfolding release_each
  release_each_fails fs [] ys l d e h foreign other =
      let refusal = release_other_file H l d e h other in
      rw (refusal, release_each)
        (failures_stay
          (fs ++ (l.path, refused "validation lock ownership changed before release") ∷ []) ys _
          (grown fs (l.path, refused "validation lock ownership changed before release")))
  release_each_fails fs (k ∷ xs) ys l d e h foreign other =
      let (a, b) = and-true_parts (is_foreign l.path e k) (all (is_foreign l.path e) xs) foreign in
      let stays = release_stays k d l.path e h a in
      elim (Attempt-cases (release_validation_lock H k d).0) [
        | inl x ↦ rw (x, release_each) (release_each_fails fs xs ys l _ e stays b other)
        | inr (why, x) ↦
            rw (x, release_each)
              (release_each_fails (fs ++ (k.path, why) ∷ []) xs ys l _ e stays b other)
      ]

  verdict_failed :
      (fs : List (String × Failure))
      → is_empty fs ≡ false
      → verdict H fs ≡ failed (refused "validation lock release failed")
  verdict_failed [] h = cc
  verdict_failed (f ∷ fs) h = refl

  foreign_identity :
      (l : Lease) (e : Entry)
      → is_foreign l.path e l ≡ true
      → same_identity (identity_of e) l.identity ≡ false
  foreign_identity l e h =
      not-true (same_identity (identity_of e) l.identity) (rw (str_eq_refl l.path) at h)

  -- The release of several leases, one of which finds at its path a file that neither it nor another of
  -- the leases with that path created: the file stays at its name, whatever the other releases do, and the
  -- release as a whole fails.
  pub release_all_foreign :
      (xs ys : List Lease) (l : Lease) (d : Disk H.Byte) (e : Entry)
      → d.entry l.path ≡ some e
      → all (is_foreign l.path e) (xs ++ l ∷ ys) ≡ true
      → ((release_validation_locks H (xs ++ l ∷ ys) d).1.entry l.path ≡ some e)
        × ((release_validation_locks H (xs ++ l ∷ ys) d).0
            ≡ failed (refused "validation lock release failed"))
  unfolding release_validation_locks
  release_all_foreign xs ys l d e h foreign =
      let split = all-append (is_foreign l.path e) xs (l ∷ ys) in
      let (a, b) =
        and-true_parts (all (is_foreign l.path e) xs) (all (is_foreign l.path e) (l ∷ ys))
          (sym split ∙ foreign) in
      let (m, n) = and-true_parts (is_foreign l.path e l) (all (is_foreign l.path e) ys) b in
      (
        release_each_stays [] (reversed H (xs ++ l ∷ ys)) d l.path e h
            (all-reversed H (is_foreign l.path e) (xs ++ l ∷ ys) foreign),
        verdict_failed _ (
            subst (λ ls. is_empty (release_each H [] ls d).0 ≡ false)
              (sym (reversed-append H xs l ys))
              (release_each_fails [] (reversed H ys) (reversed H xs) l d e h
                (all-reversed H (is_foreign l.path e) ys n) (foreign_identity l e m))),
      )
