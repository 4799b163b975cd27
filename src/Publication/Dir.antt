-- ===== src/Publication/Dir.antt =====
-- The directory of the reports, and runs that record each directory that can be observed.
use nscscc_cpu.Base.{ℕ, List, [], ◌∷◌, ◌++◌, Option, text_eq, if◌then◌else◌}
use nscscc_cpu.Locks.Disk.{Attempt, done, failed, Failure}

-- What `lstat` finds at a name: a regular file with its bytes, a link, or anything else.
pub data Node (Byte : Type 0) : Type 0 where
  regular : List Byte → Node Byte
  link : Node Byte
  other : Node Byte

-- A directory, open by its descriptor, so that a rename of its own path does not change it.
abbrev pub Dir : Type 0 → Type 0
Dir Byte = List ℕ → Option (Node Byte)

-- The outcome, the directory at the end, and each directory on the way, in order.
pub record Run (Byte A : Type 0) : Type 0 where
  pub outcome : Attempt A
  pub disk : Dir Byte
  pub seen : List (Dir Byte)

module _ {Byte : Type 0} where
  abbrev pub set_name : List ℕ → Option (Node Byte) → Dir Byte → Dir Byte
  set_name name node d = λ q. if text_eq name q then node else d q

  abbrev pub returns : {A : Type 0} → A → Dir Byte → Run Byte A
  returns a d = record { outcome = done a; disk = d; seen = [] }

  abbrev pub raises : {A : Type 0} → Failure → Dir Byte → Run Byte A
  raises why d = record { outcome = failed why; disk = d; seen = [] }

  -- One call that changes the directory and returns.
  abbrev pub changes : Dir Byte → Run Byte (Unit {0})
  changes d = record { outcome = done tt; disk = d; seen = d ∷ [] }

  abbrev pub continue : {A B : Type 0} → Attempt A → (A → Run Byte B) → Dir Byte → Run Byte B
  continue (done a) next d = next a
  continue (failed why) next d = raises why d

  -- What comes behind a run, unless it raised.
  abbrev pub and_then : {A B : Type 0} → Run Byte A → (A → Dir Byte → Run Byte B) → Run Byte B
  and_then r next =
      let later = continue r.outcome (λ a. next a r.disk) r.disk in
      record { outcome = later.outcome; disk = later.disk; seen = r.seen ++ later.seen }
