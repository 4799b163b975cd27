-- ===== src/Locks/Disk.antt =====
-- The files that the locks live on, as POSIX shows them: names, identities (`st_dev`, `st_ino`) and
-- contents. A name is the text of a resolved path.
use nscscc_cpu.Base.{ℕ, Bool, true, false, ◌&&◌, ◌==◌, String, str_eq, List, Option, if◌then◌else◌}
use nscscc_cpu.Json.{Json, Fields}

pub record Identity : Type 0 where
  pub device : ℕ
  pub inode : ℕ

abbrev pub same_identity : Identity → Identity → Bool
same_identity a b = (a.device == b.device) && (a.inode == b.inode)

-- What `lstat` finds: a regular file, or something else.
pub data Entry : Type 0 where
  regular : Identity → Entry
  special : Identity → Entry

abbrev pub identity_of : Entry → Identity
identity_of (regular i) = i
identity_of (special i) = i

abbrev pub is_regular : Entry → Bool
is_regular (regular i) = true
is_regular (special i) = false

-- The JSON encoder with its UTF-8 bytes, the strict decoder (`none` for a UnicodeError or a
-- RefactorError), and the names that the process may not remove. Nothing looks into a byte.
pub record Host : Type 1 where
  pub Byte : Type 0
  pub dumps : Fields → List Byte
  pub loads : List Byte → Option Json
  pub unlink_fails : String → Bool

pub record Disk (Byte : Type 0) : Type 0 where
  pub entry : String → Option Entry
  pub content : Identity → List Byte

module _ {Byte : Type 0} where
  abbrev pub set_entry : String → Option Entry → Disk Byte → Disk Byte
  set_entry path e d = record d { entry = λ q. if str_eq path q then e else d.entry q }

  abbrev pub set_content : Identity → List Byte → Disk Byte → Disk Byte
  set_content i bytes d = record d {
    content = λ j. if same_identity i j then bytes else d.content j;
  }

-- `ValidationLock`: the descriptor is the file that it has open.
pub record Lease : Type 0 where
  pub path : String
  pub iteration_id : String
  pub operation : String
  pub run_id : String
  pub descriptor : Identity
  pub identity : Identity

-- The exceptions: the tool's own error, or an OSError.
pub data Failure : Type 0 where
  refused : String → Failure
  os_error : Failure

pub data Attempt (A : Type 0) : Type 0 where
  done : A → Attempt A
  failed : Failure → Attempt A
