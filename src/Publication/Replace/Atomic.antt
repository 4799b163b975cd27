-- ===== src/Publication/Replace/Atomic.antt =====
-- `write_json` implements the atomic replacement of one name.
use nscscc_cpu.Base.{
  ℕ, Bool, true, false, List, [], ◌∷◌, ◌++◌, Option, none, some, take, text_eq, text_eq_refl,
  if◌then◌else◌, ◌≡◌, refl, sym, ap, ◌∙◌, subst,
}
use nscscc_cpu.Locks.Disk.{Attempt, done, failed, Failure, os_error}
use nscscc_cpu.Publication.Dir.{
  Node, regular, Dir, set_name, Run, raises, changes, continue, and_then,
}
use nscscc_cpu.Publication.Replace.{
  Calls, remove_temporary, clean_up, settle, confirm, move_temporary, write_stream,
}

-- A property of each element of a list.
abbrev pub All : {A : Type 0} → (A → Type 0) → List A → Type 0
All P [] = Unit
All P (x ∷ xs) = P x × All P xs

module _ {Byte : Type 0} (payload : List Byte) where
  -- The specification: what a name may turn into while the payload is published at it. It keeps its
  -- node, it gets the whole payload, and the payload may be taken back.
  pub data Transition : Option (Node Byte) → Option (Node Byte) → Type 0 where
    stay : {n : Option (Node Byte)} → Transition n n
    publish : {n : Option (Node Byte)} → Transition n (some (regular payload))
    withdraw : Transition (some (regular payload)) none

  module _ (target temporary : List ℕ) where
    -- The other names keep their nodes.
    abbrev pub Framed : Dir Byte → Dir Byte → Type 0
    Framed d e = (q : List ℕ) → text_eq target q ≡ false → text_eq temporary q ≡ false → e q ≡ d q

    -- Each directory in turn is a transition of the specification.
    abbrev pub Observed : Dir Byte → List (Dir Byte) → Type 0
    Observed d [] = Unit
    Observed d (e ∷ es) = Transition (d target) (e target) × Framed d e × Observed e es

    abbrev pub last_of : Dir Byte → List (Dir Byte) → Dir Byte
    last_of d [] = d
    last_of d (e ∷ es) = last_of e es

    -- What is observed of a run is a path of the specification, which ends where the run does.
    abbrev pub Refines : {A : Type 0} → Dir Byte → Run Byte A → Type 0
    Refines d r = Observed d r.seen × (last_of d r.seen ≡ r.disk)

    Observed-append :
        (d : Dir Byte) (xs ys : List (Dir Byte))
        → Observed d xs
        → Observed (last_of d xs) ys
        → Observed d (xs ++ ys)
    Observed-append d [] ys h k = k
    Observed-append d (x ∷ xs) ys (s, f, h) k = (s, f, Observed-append x xs ys h k)

    last_of-append :
        (d : Dir Byte) (xs ys : List (Dir Byte)) → last_of d (xs ++ ys) ≡ last_of (last_of d xs) ys
    last_of-append d [] ys = refl
    last_of-append d (x ∷ xs) ys = last_of-append x xs ys

    pub Observed-others :
        (d : Dir Byte) (es : List (Dir Byte)) (q : List ℕ)
        → Observed d es
        → text_eq target q ≡ false
        → text_eq temporary q ≡ false
        → last_of d es q ≡ d q
    Observed-others d [] q h a b = refl
    Observed-others d (e ∷ es) q (t, f, h) a b = Observed-others e es q h a b ∙ f q a b

    -- A property that transitions of the specification keep holds of all that is observed.
    pub Observed-All :
        (P : Dir Byte → Type 0)
        → ((d e : Dir Byte) → Framed d e → P d → P e)
        → (d : Dir Byte) (es : List (Dir Byte)) → P d
        → Observed d es
        → All P es
    Observed-All P keep d [] p h = tt
    Observed-All P keep d (e ∷ es) p (t, f, h) =
        let q = keep d e f p in (q, Observed-All P keep e es q h)

    -- Two runs in a row.
    pub Refines-glue :
        {A B : Type 0} (d : Dir Byte) (r : Run Byte A) (s : Run Byte B)
        → Refines d r
        → Refines r.disk s
        → Refines {A = B} d (record { outcome = s.outcome; disk = s.disk; seen = r.seen ++ s.seen })
    Refines-glue d r s (h, e) (k, f) = (
      Observed-append d r.seen s.seen h (subst (λ m. Observed m s.seen) (sym e) k),
      last_of-append d r.seen s.seen ∙ ap (λ m. last_of m s.seen) e ∙ f,
    )

    pub Refines-continue :
        {A B : Type 0} (o : Attempt A) (next : A → Dir Byte → Run Byte B) (d : Dir Byte)
        → ((a : A) → o ≡ done a → Refines d (next a d))
        → Refines d (continue o (λ a. next a d) d)
    Refines-continue (done a) next d k = k a refl
    Refines-continue (failed why) next d k = (tt, refl)

    pub Refines-then :
        {A B : Type 0} (d : Dir Byte) (r : Run Byte A) (next : A → Dir Byte → Run Byte B)
        → Refines d r
        → ((a : A) → r.outcome ≡ done a → Refines r.disk (next a r.disk))
        → Refines d (and_then r next)
    Refines-then d r next h k =
        Refines-glue d r (continue r.outcome (λ a. next a r.disk) r.disk) h
          (Refines-continue r.outcome next r.disk k)

    -- A call that may fail, and what follows where it does not.
    pub Refines-unless :
        {A : Type 0} (b : Bool) (why : Failure) (d : Dir Byte) (r : Run Byte A)
        → Refines d r
        → Refines d (if b then raises why d else r)
    Refines-unless true why d r h = (tt, refl)
    Refines-unless false why d r h = h

    pub Refines-pick :
        {A : Type 0} (b : Bool) (d : Dir Byte) (r s : Run Byte A)
        → Refines d r
        → Refines d s
        → Refines d (if b then r else s)
    Refines-pick true d r s h k = h
    Refines-pick false d r s h k = k

    -- One change, then the rest.
    pub Refines-change :
        {A : Type 0} (d e : Dir Byte) (next : Unit {0} → Dir Byte → Run Byte A)
        → Transition (d target) (e target)
        → Framed d e
        → Refines e (next tt e)
        → Refines d (and_then (changes e) next)
    Refines-change d e next t f h = Refines-then d (changes e) next ((t, f, tt), refl) (λ u x. h)

    module _ (c : Calls) (apart : text_eq temporary target ≡ false) where
      -- A call that changes the temporary name only.
      pub kept_target :
          (x : Option (Node Byte)) (d : Dir Byte)
          → Transition (d target) (set_name temporary x d target)
      kept_target x d = rw (apart) stay

      pub kept_others : (x : Option (Node Byte)) (d : Dir Byte) → Framed d (set_name temporary x d)
      kept_others x d q h k = rw (k) refl

      pub clean_up-Refines :
          (why : Failure) (d : Dir Byte) → Refines d (clean_up c target temporary why d)
      unfolding clean_up
      clean_up-Refines why d = removed why d (d temporary)
        where
          removed :
              (why : Failure) (d : Dir Byte) (node : Option (Node Byte))
              → Refines d (remove_temporary c target temporary node why d)
          removed why d none = (tt, refl)
          removed why d (some node) =
              Refines-unless c.unlink_temporary_fails os_error d
                (and_then (changes (set_name temporary none d)) (λ u e. raises why e))
                (Refines-change {A = Unit {0}} d (set_name temporary none d) (λ u e. raises why e)
                  (kept_target none d) (kept_others none d) (tt, refl))

      settle-Refines :
          (o : Attempt (Unit {0})) (d : Dir Byte)
          → d target ≡ some (regular payload)
          → Refines d (settle c target temporary o d)
      unfolding settle
      settle-Refines (done u) d e = (tt, refl)
      settle-Refines (failed why) d e =
          Refines-unless c.unlink_target_fails why d
            (and_then (changes (set_name target none d)) (λ u x. clean_up c target temporary why x))
            (Refines-change d (set_name target none d) (λ u x. clean_up c target temporary why x)
              (rw (text_eq_refl target, e) withdraw) (λ q h k. rw (h) refl)
              (clean_up-Refines why (set_name target none d)))

      pub moved_target :
          (d : Dir Byte)
          → d temporary ≡ some (regular payload)
          → set_name temporary none (set_name target (d temporary) d) target
            ≡ some (regular payload)
      moved_target d e = rw (apart, text_eq_refl target) e

      pub move_temporary-Refines :
          (o : Attempt (Unit {0})) (d : Dir Byte)
          → d temporary ≡ some (regular payload)
          → Refines d (move_temporary c target temporary o d)
      unfolding move_temporary confirm
      move_temporary-Refines (failed why) d e = clean_up-Refines why d
      move_temporary-Refines (done u) d e =
          let moved = set_name temporary none (set_name target (d temporary) d) in
          Refines-change d moved (λ u x. confirm c target temporary x)
            (subst (Transition (d target)) (sym (moved_target d e)) publish)
            (λ q h k. rw (h, k) refl) (settle-Refines _ moved (moved_target d e))

      pub write_stream-Refines :
          (ns : List ℕ) (d : Dir Byte) → Refines d (write_stream c target temporary ns payload d)
      unfolding write_stream
      write_stream-Refines [] d =
          let whole : Option (Node Byte) = some (regular payload) in
          Refines-unless c.write_fails os_error d (changes (set_name temporary whole d))
            ((kept_target whole d, kept_others whole d, tt), refl)
      write_stream-Refines (n ∷ ns) d =
          let part : Option (Node Byte) = some (regular (take n payload)) in
          Refines-change d (set_name temporary part d)
            (λ u e. write_stream c target temporary ns payload e) (kept_target part d)
            (kept_others part d) (write_stream-Refines ns (set_name temporary part d))

      -- A writing that returns leaves the whole payload at the temporary name.
      pub write_stream-written :
          (ns : List ℕ) (d : Dir Byte) (u : Unit {0})
          → (write_stream c target temporary ns payload d).outcome ≡ done u
          → (write_stream c target temporary ns payload d).disk temporary ≡ some (regular payload)
      unfolding write_stream
      write_stream-written [] d u h = whole c.write_fails h
        where
          whole :
              (b : Bool)
              → (if b
                  then raises os_error d
                  else changes (set_name temporary (some (regular payload)) d)).outcome
                ≡ done u
              → (if b
                    then raises os_error d
                    else changes (set_name temporary (some (regular payload)) d)).disk
                  temporary
                ≡ some (regular payload)
          whole true h = cc
          whole false h = rw (text_eq_refl temporary) refl
      write_stream-written (n ∷ ns) d u h =
          write_stream-written ns (set_name temporary (some (regular (take n payload))) d) u h
