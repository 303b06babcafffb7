-- ===== src/Update/Recover.antt =====
-- cli/update/transaction.go: rolling a prepared transaction back, and finishing interrupted ones.
pub mod Undoable
pub mod Checked
pub mod Settled
pub mod Restart
pub mod Undo
use atum.Base.{
  ℕ, zero, suc, Bool, true, false, ◌&&◌, ◌||◌, not, Option, none, some, List, [], ◌∷◌, Text, text,
  str_eq, length, get_elem?, has_slash, if◌then◌else◌,
}
use atum.Update.Disk.{
  Node, Version, Record, Journal, Entry, Disk, Error, out_of_range, backup_mismatch, refused,
  unproven, changed_new, uncommitted, unexpected_entry, unsupported_state, joined, io_error, Result,
  ok, M, Attempt, done, failed, ◌>>=◌, ◌>>◌, pure, raise, call, get, change, try, put,
}
use atum.Update.Version.{same, present_as, Env, snapshot, regular_file_version}
use atum.Update.Journal.{
  prepared, committed, set_backup, backup_at, read_transaction_journal, valid_transaction_id,
  remove_transaction_directory, ensure_managed_parent, mem_path,
}

-- The path of the parent directory, up to the last slash.
pub parent : Text → Text
parent [] = []
parent (c ∷ s) = if has_slash s then c ∷ parent s else []

-- The rename that puts backup `i` back at its path.
abbrev pub restored_by : ℕ → Text → Node → Disk → Disk
restored_by i p n d = set_backup i none (record d { files = put d.files p (some n) })

abbrev pub rename_backup_from : ℕ → Text → Option Node → M (Unit {0})
rename_backup_from i p none = raise io_error
rename_backup_from i p (some n) = change (restored_by i p n)

unfoldable pub rename_backup : ℕ → Text → M (Unit {0})
rename_backup i p = do call; d ← get; rename_backup_from i p (backup_at i d)

-- `os.Remove(canonical)`, which fails where there is no file.
abbrev pub remove_from : Text → Option Node → M (Unit {0})
remove_from p none = raise io_error
remove_from p (some n) = change (λ d. record d { files = put d.files p none })

unfoldable pub remove : Text → M (Unit {0})
remove p = do call; d ← get; remove_from p (d.files p)

module _ (env : Env) (i : ℕ) (r : Record) where
  -- `!candidatePresent && !candidateDeleted`
  abbrev pub is_foreign : Version → Bool
  is_foreign current =
      not (r.candidate.exists && present_as current r.candidate)
      && not (not current.exists && not r.candidate.exists)

  -- The backup is there: the file is put back, unless it has never been replaced or somebody else
  -- has changed it.
  abbrev pub restore_current : Version → M (Unit {0})
  restore_current current =
      if present_as current r.original
      then pure tt
      else if is_foreign current
      then raise (refused r.path)
      else rename_backup i r.path

  abbrev pub check_restored : Attempt Version → M (Unit {0})
  check_restored (failed e) = raise (unproven r.path)
  check_restored (done state) =
      if present_as state r.original then pure tt else raise (unproven r.path)

  abbrev pub restore_from : Option Version → M (Unit {0})
  restore_from (some backup) =
      if present_as backup r.original
      then snapshot env r.path >>= restore_current
      else raise (backup_mismatch r.path)
  restore_from none = try (snapshot env r.path) >>= check_restored

  -- The original did not exist: what the transaction put there is removed.
  abbrev pub retract : Version → M (Unit {0})
  retract state =
      if state.exists
      then if r.candidate.exists && present_as state r.candidate
        then remove r.path
        else raise (changed_new r.path)
      else pure tt

  abbrev pub undo : M (Unit {0})
  undo =
      if r.original.exists
      then regular_file_version env (backup_at i) >>= restore_from
      else snapshot env r.path >>= retract

  -- One turn of the loop of `recoverPreparedTransaction`.
  unfoldable pub recover_record : M (Unit {0})
  recover_record = ensure_managed_parent r.path >> undo

module _ (env : Env) where
  abbrev pub recover_at : ℕ → Option Record → M (Unit {0})
  recover_at i none = raise out_of_range
  recover_at i (some r) = recover_record env i r

  -- The loop from the last record down to the first; index `n - 1` comes first.
  unfoldable pub recover_loop : List Record → ℕ → M (Unit {0})
  recover_loop rs zero = pure tt
  recover_loop rs (suc i) = recover_at i (get_elem? rs i) >> recover_loop rs i

-- One `syncDirectory` for each different parent.
unfoldable pub sync_parents : List Text → List Record → M (Unit {0})
unfolding parent
sync_parents seen [] = pure tt
sync_parents seen (r ∷ rs) =
    (if mem_path (parent r.path) seen then pure tt else call)
    >> sync_parents (parent r.path ∷ seen) rs

-- The test of `verifyCommittedTransaction`, the other way round.
abbrev pub committed_as : Record → Version → Bool
committed_as r state =
    (if state.exists then r.candidate.exists else not r.candidate.exists)
    && (not state.exists || present_as state r.candidate)

-- `rollbackTransaction` always ends in an error.
abbrev pub rolled_back : {A : Type 0} → Error → Attempt (Unit {0}) → M A
rolled_back cause (done _) = raise cause
rolled_back cause (failed e) = raise (joined cause e)

module _ (env : Env) where
  -- `recoverPreparedTransaction`
  unfoldable pub recover_prepared : List Record → M (Unit {0})
  recover_prepared rs = recover_loop env rs (length rs) >> sync_parents [] rs

  unfoldable pub rollback : {A : Type 0} → List Record → Error → M A
  rollback rs cause = try (recover_prepared rs) >>= rolled_back cause

  -- `verifyCommittedTransaction`
  unfoldable pub verify_committed : List Record → M (Unit {0})
  verify_committed [] = pure tt
  verify_committed (r ∷ rs) = do
    state ← snapshot env r.path
    if committed_as r state then verify_committed rs else raise (uncommitted r.path)

  -- What becomes of an entry by the state in its journal.
  abbrev pub settle : Text → Option Journal → M (Unit {0})
  settle name none = pure tt
  settle name (some j) =
      if str_eq j.state prepared
      then recover_prepared j.files
      else if str_eq j.state committed
      then verify_committed j.files
      else raise (unsupported_state name)

  -- The work on one transaction directory.
  abbrev pub recover_directory : Text → M Bool
  recover_directory name =
      (read_transaction_journal env >>= settle name)
      >> (remove_transaction_directory name >> pure true)

  abbrev pub recover_entry : Bool → Entry → M Bool
  recover_entry false e = pure false
  recover_entry true e =
      if e.is_directory && valid_transaction_id e.name
      then recover_directory e.name
      else raise (unexpected_entry e.name)

  -- `recoverTransactions`: whether there was anything to recover.
  unfoldable pub recover_transactions : M Bool
  recover_transactions = do call; call; d ← get; recover_entry d.present d.entry
