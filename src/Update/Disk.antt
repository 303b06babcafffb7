-- ===== src/Update/Disk.antt =====
-- What cli/update/transaction.go reads and writes: the managed files, the one transaction
-- directory, and the file system calls, any of which may fail or be the last before a crash.
pub mod Put
use atum.Base.{
  ℕ, zero, suc, Bool, true, false, Option, none, some, List, [], ◌∷◌, Text, str_eq, ◌==◌,
  if◌then◌else◌,
}

-- What stands at a path: a regular file with its mode and bytes, or anything else.
pub data Node : Type 0 where
  regular : ℕ → Text → Node
  irregular : Node

-- `managedVersion` without its bytes: existence, permission bits and SHA-256.
pub record Version : Type 0 where
  pub exists : Bool
  pub mode : ℕ
  pub digest : Text

-- The zero value: no file.
abbrev pub absent : Version
absent = record { exists = false; mode = 0; digest = [] }

-- `transactionRecord`, its Original and Candidate fields as two versions.
pub record Record : Type 0 where
  pub path : Text
  pub original : Version
  pub candidate : Version

-- `transactionJournal`
pub record Journal : Type 0 where
  pub schema_version : Text
  pub state : Text
  pub files : List Record

-- An entry below .atum/state/update-transactions: its name, whether it is a directory, and the
-- files `candidate/%06d`, `backup/%06d` and `journal.json` in it.
pub record Entry : Type 0 where
  pub name : Text
  pub is_directory : Bool
  pub candidates : ℕ → Option Node
  pub backups : ℕ → Option Node
  pub journal : Option Journal

-- `present` says whether the entry is there.
pub record Disk : Type 0 where
  pub files : Text → Option Node
  pub present : Bool
  pub entry : Entry

-- What becomes of one file system call: it succeeds, it fails, or the process dies before it.
pub data Outcome : Type 0 where
  good bad crash : Outcome

-- What `os.RemoveAll` unlinks, in the order in which the directory lists it.
pub data Piece : Type 0 where
  candidate_file backup_file : ℕ → Piece
  journal_file : Piece

-- `script` holds the outcomes of the calls to come, and good ones after its end.
pub record World : Type 0 where
  pub script : List Outcome
  pub sweep : List Piece
  pub disk : Disk

pub data Error : Type 0 where
  io_error not_relative irregular_file interrupted out_of_range : Error
  invalid_mode duplicate invalid_version empty_identity changed_directory : Text → Error
  changed backup_mismatch refused unproven changed_new uncommitted : Text → Error
  unexpected_entry unsupported_state refuse_remove : Text → Error
  journal_too_large journal_schema journal_record journal_repeats : Error
  joined : Error → Error → Error

pub data Result (A : Type 0) : Type 0 where
  ok : A → Result A
  err : Error → Result A
  died : Result A

abbrev pub M : Type 0 → Type 0
M A = World → Result A × World

-- What follows a call that has ended.
unfoldable pub after : {A B : Type 0} → (A → M B) → Result A × World → Result B × World
after f (ok a, w) = f a w
after f (err e, w) = (err e, w)
after f (died, w) = (died, w)

infixl 5 ◌>>=◌ ◌>>◌
abbrev pub ◌>>=◌ : {A B : Type 0} → M A → (A → M B) → M B
◌>>=◌ m f w = after f (m w)

abbrev pub ◌>>◌ : {A B : Type 0} → M A → M B → M B
m >> k = m >>= λ _. k

abbrev pub pure : {A : Type 0} → A → M A
pure a w = (ok a, w)

abbrev pub raise : {A : Type 0} → Error → M A
raise e w = (err e, w)

-- A call's error as a value; a crash is not caught.
pub data Attempt (A : Type 0) : Type 0 where
  done : A → Attempt A
  failed : Error → Attempt A

unfoldable pub caught : {A : Type 0} → Result A × World → Result (Attempt A) × World
caught (ok a, w) = (ok (done a), w)
caught (err e, w) = (ok (failed e), w)
caught (died, w) = (died, w)

abbrev pub try : {A : Type 0} → M A → M (Attempt A)
try m w = caught (m w)

-- One file system call: what the next outcome does, with the outcomes after it left.
unfoldable pub outcome : World → List Outcome → Result (Unit {0}) × World
outcome w [] = (ok tt, w)
outcome w (good ∷ s) = (ok tt, record w { script = s })
outcome w (bad ∷ s) = (err io_error, record w { script = s })
outcome w (crash ∷ s) = (died, record w { script = s })

unfoldable pub call : M (Unit {0})
unfolding outcome
call w = outcome w w.script

-- `n` calls in a row, which leave the disk alone.
unfoldable pub calls : ℕ → M (Unit {0})
calls zero = pure tt
calls (suc n) = call >> calls n

abbrev pub get : M Disk
get w = (ok w.disk, w)

abbrev pub change : (Disk → Disk) → M (Unit {0})
change f w = (ok tt, record w { disk = f w.disk })

-- Writes to the managed files, the numbered files and the transaction directory.
module _ {A : Type 0} where
  pub put : (Text → A) → Text → A → Text → A
  put f p v q = if str_eq q p then v else f q

  pub put_at : (ℕ → A) → ℕ → A → ℕ → A
  put_at f i v j = if j == i then v else f j
