-- ===== src/Update/Commit.antt =====
-- cli/update/transaction.go: `fileTransaction.Commit` and `Verify`.
pub mod Stage
pub mod Verify
pub mod Body
pub mod Replace
pub mod Crash
pub mod Directory
pub mod Written
pub mod AllOrNothing
use atum.Base.{
  ℕ, zero, suc, ◌+◌, Bool, true, false, not, Option, none, some, List, [], ◌∷◌, map, Text, str_eq,
  length, if◌then◌else◌,
}
use atum.Update.Disk.{
  Node, regular, irregular, Version, Record, Journal, Entry, Disk, Error, io_error, interrupted,
  changed, changed_directory, backup_mismatch, Result, ok, M, Attempt, done, failed, ◌>>=◌, ◌>>◌,
  pure, raise, call, calls, get, change, try, put,
}
use atum.Update.Version.{same, Env, snapshot, version_of}
use atum.Update.Journal.{
  journal_of, prepared, committed, set_backup, set_candidate, backup_at, candidate_at,
  write_transaction_journal, remove_all, remove_transaction_directory, ensure_managed_parent,
}
use atum.Update.Recover.{remove, rollback, recover_transactions}
use atum.Update.Transaction.{Managed, Change, Transaction, changed_files}

-- `transactionRecord` of a changed file.
abbrev pub record_of : Text × Change → Record
record_of (p, c) = record {
  path = p;
  original = c.expected.version;
  candidate = c.candidate.version;
}

abbrev pub bytes_or_empty : Option Text → Text
bytes_or_empty none = []
bytes_or_empty (some b) = b

-- `writeSyncedFile` of the candidate: open, secure, write, sync and close.
unfoldable pub stage_candidate : ℕ → Change → M (Unit {0})
stage_candidate i c =
    let v = c.candidate.version in
    if v.exists
    then calls 5
      >> change (set_candidate i (some (regular v.mode (bytes_or_empty c.candidate.bytes))))
    else pure tt

-- `copySyncedFile` of what stands at the path, with the expected mode.
abbrev pub backup_of : ℕ → ℕ → Option Node → M (Unit {0})
backup_of i mode (some (regular m b)) = change (set_backup i (some (regular mode b)))
backup_of i mode (some irregular) = raise io_error
backup_of i mode none = raise io_error

-- The rename of candidate `i` to its path.
abbrev pub install_from : ℕ → Text → Option Node → M (Unit {0})
install_from i p none = raise io_error
install_from i p (some n) =
    change (λ d. set_candidate i none (record d { files = put d.files p (some n) }))

unfoldable pub install : ℕ → Text → M (Unit {0})
install i p = do call; d ← get; install_from i p (candidate_at i d)

-- One turn of the loop that replaces the files.
unfoldable pub replace_record : ℕ → Record → M (Unit {0})
replace_record i r = do
  ensure_managed_parent r.path
  if r.candidate.exists then install i r.path else remove r.path
  call

unfoldable pub replace : ℕ → List Record → M (Unit {0})
replace i [] = pure tt
replace i (r ∷ rs) = replace_record i r >> replace (suc i) rs

module _ (env : Env) where
  -- The files' part of `Verify`.
  unfoldable pub verify_files : List (Text × Change) → M (Unit {0})
  verify_files [] = pure tt
  verify_files ((p, c) ∷ m) = do
    actual ← snapshot env p
    if same actual c.expected.version then verify_files m else raise (changed p)

  abbrev pub read_digest : Option Text → M Text
  read_digest none = raise io_error
  read_digest (some s) = pure s

  unfoldable pub verify_directories : List (Text × Text) → M (Unit {0})
  verify_directories [] = pure tt
  verify_directories ((p, expected) ∷ m) = do
    call
    d ← get
    actual ← read_digest (env.directory_digest d.files p)
    if str_eq actual expected then verify_directories m else raise (changed_directory p)

  -- `Verify`
  unfoldable pub verify : Transaction → M (Unit {0})
  verify t = verify_files t.files >> verify_directories t.directories

  -- `snapshotAbsoluteFile`, which errs where there is no file.
  abbrev pub read_absolute : Option Node → M Version
  read_absolute none = raise io_error
  read_absolute (some (regular m b)) =
      pure (record { exists = true; mode = m; digest = env.hash b })
  read_absolute (some irregular) = raise io_error

  abbrev pub check_backup : Text → Change → Version → M (Unit {0})
  check_backup p c backup =
      if same backup c.expected.version then pure tt else raise (backup_mismatch p)

  -- The copy to `backup/%06d`, and the check that it is what was expected.
  abbrev pub make_backup : ℕ → Text → Change → M (Unit {0})
  make_backup i p c =
      calls 5
      >> ((get >>= λ d. backup_of i c.expected.version.mode (d.files p))
          >> (calls 2 >> ((get >>= λ e. read_absolute (backup_at i e)) >>= check_backup p c)))

  unfoldable pub stage_backup : ℕ → Text → Change → M (Unit {0})
  stage_backup i p c = if c.expected.version.exists then make_backup i p c else pure tt

  -- The loop that stages every changed file; `i` is the index of the first.
  unfoldable pub stage : ℕ → List (Text × Change) → M (Unit {0})
  stage i [] = pure tt
  stage i ((p, c) ∷ m) = stage_candidate i c >> (stage_backup i p c >> stage (suc i) m)

-- How the body ends when it does not err: with the directory gone, or with an error that leaves it.
pub data Exit : Type 0 where
  finished : Exit
  kept : Error → Exit

abbrev pub removed : Attempt (Unit {0}) → M Exit
removed (done _) = pure finished
removed (failed e) = pure (kept e)

module _ (env : Env) (name : Text) where
  -- After the last journal: clean up, leave the directory, or roll back.
  abbrev pub conclude : List Record → Bool × Option Error → M Exit
  conclude rs (_, none) = try (remove_transaction_directory name) >>= removed
  conclude rs (true, some e) = pure (kept e)
  conclude rs (false, some e) = rollback env rs e

  abbrev pub publish : List Record → Attempt (Unit {0}) → M Exit
  publish rs (done _) = write_transaction_journal (journal_of committed rs) >>= conclude rs
  publish rs (failed e) = rollback env rs e

  -- The files are replaced only under a journal that says how to undo it.
  abbrev pub replace_under_journal : List Record → Bool × Option Error → M Exit
  replace_under_journal rs (_, some e) = raise e
  replace_under_journal rs (_, none) = try (replace 0 rs) >>= publish rs

  -- `Commit` from the creation of the two subdirectories on.
  unfoldable pub commit_body : Transaction → M Exit
  commit_body t =
      let changes = changed_files t.files in
      let rs = map record_of changes in
      calls 2
      >> (stage env 0 changes
          >> (calls 2
              >> (verify env t
                  >> (write_transaction_journal (journal_of prepared rs)
                      >>= replace_under_journal rs))))

-- The deferred `os.RemoveAll`, whose error is dropped.
abbrev pub deferred : Attempt Exit → M (Unit {0})
deferred (done finished) = pure tt
deferred (done (kept e)) = raise e
deferred (failed e) = try remove_all >>= λ _. raise e

-- `createTransactionDirectory` with a fresh name: root, entropy, directory, sync.
abbrev pub empty_entry : Text → Entry
empty_entry name = record {
  name = name;
  is_directory = true;
  candidates = λ _. none;
  backups = λ _. none;
  journal = none;
}

abbrev pub set_entry : Bool → Entry → Disk → Disk
set_entry present e d = record d { present = present; entry = e }

abbrev pub created : Text → Attempt (Unit {0}) → M (Unit {0})
created name (done _) = pure tt
created name (failed e) = try (call >> change (set_entry false (empty_entry name))) >>= λ _. raise e

unfoldable pub create_transaction_directory : Text → M (Unit {0})
create_transaction_directory name =
    call
    >> (call
        >> (call >> (change (set_entry true (empty_entry name)) >> (try call >>= created name))))

module _ (env : Env) (name : Text) (t : Transaction) where
  abbrev pub commit_changes : List (Text × Change) → M (Unit {0})
  commit_changes [] = pure tt
  commit_changes (_ ∷ _) =
      create_transaction_directory name >> (try (commit_body env name t) >>= deferred)

  abbrev pub after_recovery : Bool → M (Unit {0})
  after_recovery true = raise interrupted
  after_recovery false = verify env t >> commit_changes (changed_files t.files)

  -- `Commit`
  unfoldable pub commit : M (Unit {0})
  commit = recover_transactions env >>= after_recovery
