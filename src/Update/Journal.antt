-- ===== src/Update/Journal.antt =====
-- cli/update/transaction.go: the transaction directory and its journal.
pub mod Calls
use atum.Base.{
  ℕ, ◌+◌, ◌*◌, ◌^◌, Bool, true, false, ◌&&◌, ◌||◌, not, Option, none, some, List, [], ◌∷◌, Text,
  text, str_eq, length, ◌==◌, ltb, leb, if◌then◌else◌, has_slash,
}
use atum.Fssecure.{relative}
use atum.Update.Disk.{
  Node, Version, Record, Journal, Entry, Disk, Piece, candidate_file, backup_file, journal_file,
  Error, io_error, not_relative, refuse_remove, journal_too_large, journal_schema, journal_record,
  journal_repeats, Result, ok, M, World, Attempt, done, failed, ◌>>=◌, ◌>>◌, pure, raise, call,
  calls, get, change, try, put, put_at,
}
use atum.Update.Encode.{encoded}
use atum.Update.Version.{valid_hex_sha256, is_lower_hex, all_lower_hex, Env}

abbrev pub transaction_schema : Text
transaction_schema = text "atum.dev/update-transaction/v2"

abbrev pub prepared : Text
prepared = text "prepared"

abbrev pub committed : Text
committed = text "committed"

-- The journal of a commit.
abbrev pub journal_of : Text → List Record → Journal
journal_of state rs = record { schema_version = transaction_schema; state = state; files = rs }

-- What is read of it where every string comes back as it was.
abbrev pub recorded : List Record → Text → Journal
recorded rs state = journal_of state rs

-- What is read of it once it is written.
abbrev pub written : List Record → Text → Journal
written rs state = encoded (journal_of state rs)

-- A write inside the transaction directory.
abbrev pub edit_entry : (Entry → Entry) → Disk → Disk
edit_entry f d = record d { entry = f d.entry }

abbrev pub backup_at : ℕ → Disk → Option Node
backup_at i d = d.entry.backups i

abbrev pub candidate_at : ℕ → Disk → Option Node
candidate_at i d = d.entry.candidates i

abbrev pub set_journal : Journal → Disk → Disk
set_journal j = edit_entry (λ e. record e { journal = some j })

abbrev pub set_candidate : ℕ → Option Node → Disk → Disk
set_candidate i n = edit_entry (λ e. record e { candidates = put_at e.candidates i n })

abbrev pub set_backup : ℕ → Option Node → Disk → Disk
set_backup i n = edit_entry (λ e. record e { backups = put_at e.backups i n })

-- `validTransactionID`: 24 lower-case hexadecimal digits.
unfoldable pub valid_transaction_id : Text → Bool
unfolding all_lower_hex
valid_transaction_id value = length value == 24 && all_lower_hex value

-- `writeTransactionJournal`: encode, create, secure, write, sync and close a temporary file, rename it to
-- journal.json, sync the directory. The error comes with whether the journal was published.
abbrev pub synced : Attempt (Unit {0}) → M (Bool × Option Error)
synced (failed e) = pure (true, some e)
synced (done _) = pure (true, none)

abbrev pub renamed : Journal → Attempt (Unit {0}) → M (Bool × Option Error)
renamed j (failed e) = pure (false, some e)
renamed j (done _) = change (set_journal (encoded j)) >> (try call >>= synced)

unfoldable pub write_transaction_journal : Journal → M (Bool × Option Error)
write_transaction_journal j = try (calls 6) >>= renamed j

-- `validJournalMaterial`
unfoldable pub valid_material : Version → Bool
valid_material v =
    if v.exists
    then ltb 0 v.mode && leb v.mode 511 && valid_hex_sha256 v.digest
    else v.mode == 0 && str_eq v.digest []

unfoldable pub valid_journal_material : Record → Bool
unfolding valid_material
valid_journal_material r = valid_material r.original && valid_material r.candidate

-- `err != nil || clean != record.Path || !validJournalMaterial(*record)`, the other way round.
unfoldable pub valid_record : Record → Bool
unfolding valid_journal_material
valid_record r = elim (relative r.path) [
  | none ↦ false
  | some clean ↦ str_eq clean r.path && valid_journal_material r
]

-- The set `seen` of paths.
unfoldable pub mem_path : Text → List Text → Bool
mem_path p [] = false
mem_path p (q ∷ qs) = str_eq p q || mem_path p qs

-- The checks on the records of a journal that is read, in order; `none` if all pass.
unfoldable pub check_records : List Text → List Record → Option Error
check_records seen [] = none
check_records seen (r ∷ rs) =
    let rest = check_records (r.path ∷ seen) rs in
    if not (valid_record r)
    then some journal_record
    else if mem_path r.path seen
    then some journal_repeats
    else rest

module _ (env : Env) where
  -- What `readTransactionJournal` finds wrong in a journal.
  unfoldable pub journal_problem : Journal → Option Error
  journal_problem j =
      if ltb (2 ^ 20) (env.journal_size j)
      then some journal_too_large
      else if not (str_eq j.schema_version transaction_schema) || length j.files == 0
      then some journal_schema
      else check_records [] j.files

  abbrev pub accept : Journal → Option Error → M (Option Journal)
  accept j none = pure (some j)
  accept j (some e) = raise e

  abbrev pub read_journal : Option Journal → M (Option Journal)
  read_journal none = pure none
  read_journal (some j) = call >> accept j (journal_problem j)

  -- `readTransactionJournal`: open, read and decode; `none` where there is no journal.
  unfoldable pub read_transaction_journal : M (Option Journal)
  read_transaction_journal = do call; d ← get; read_journal d.entry.journal

abbrev pub unlink : Piece → Entry → Entry
unlink (candidate_file i) e = record e { candidates = put_at e.candidates i none }
unlink (backup_file i) e = record e { backups = put_at e.backups i none }
unlink journal_file e = record e { journal = none }

-- `os.RemoveAll` of the transaction directory: file after file, then the directory itself.
unfoldable pub remove_pieces : List Piece → M (Unit {0})
remove_pieces [] = call >> change (λ d. record d { present = false })
remove_pieces (p ∷ ps) = call >> (change (edit_entry (unlink p)) >> remove_pieces ps)

unfoldable pub remove_all : M (Unit {0})
remove_all w = remove_pieces w.sweep w

-- `removeTransactionDirectory` of the entry; its parent is the transaction root by construction.
unfoldable pub remove_transaction_directory : Text → M (Unit {0})
remove_transaction_directory name =
    if valid_transaction_id name then remove_all >> call else raise (refuse_remove name)

-- `EnsureDirectory` of the parent of a path with a slash.
abbrev pub resolved : Bool → M (Unit {0})
resolved true = call
resolved false = pure tt

abbrev pub resolve_parent : Option Text → M Text
resolve_parent none = raise not_relative
resolve_parent (some clean) = do resolved (has_slash clean); call; pure clean

-- `ensureManagedParent`: it makes the parent, unless that is the root, and resolves the path.
unfoldable pub ensure_managed_parent : Text → M Text
ensure_managed_parent path = resolve_parent (relative path)
