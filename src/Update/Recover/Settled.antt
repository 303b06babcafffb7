-- ===== src/Update/Recover/Settled.antt =====
-- The disks from which a restart can settle the transaction, and the removal of its directory.
use atum.Base.{
  ℕ, true, false, Option, none, some, List, [], ◌∷◌, Text, length, ◌≡◌, ◌≢◌, refl, ◌⊎◌, inl, inr,
  arith,
}
use native.Mathlib.Decide.{ℕ_discrete}
use atum.Update.Disk.{
  Node, Record, Journal, Disk, World, Piece, candidate_file, backup_file, journal_file, call,
  refuse_remove, raise, ◌>>◌,
}
use atum.Update.Disk.Put.{put_at_self, put_at_ne}
use atum.Update.Version.{Env}
use atum.Update.Version.Calls.{IsAt}
use atum.Update.Journal.{
  prepared, committed, recorded, edit_entry, unlink, valid_transaction_id, remove_pieces,
  remove_all, remove_transaction_directory,
}
use atum.Update.Ends.{on_ok, Fine, Leaves, bind-Ends, ok_then, if-Ends, call-Leaves}
use atum.Update.Recover.Undoable.{At, Undoes, forget}

module _ (env : Env) (rs : List Record) (found : Text → Option Node) where
  -- Every file of the transaction is the original, and no other file has changed.
  pub record Original (d : Disk) : Type 0 where
    pub originals : (i : ℕ) (r : Record) → At rs i r → IsAt env d r.path r.original
    pub others : (p : Text) → ((i : ℕ) (r : Record) → At rs i r → r.path ≢ p) → d.files p ≡ found p

  -- Every file of the transaction is the candidate, and no other file has changed.
  pub record Installed (d : Disk) : Type 0 where
    pub candidates : (i : ℕ) (r : Record) → At rs i r → IsAt env d r.path r.candidate
    pub others : (p : Text) → ((i : ℕ) (r : Record) → At rs i r → r.path ≢ p) → d.files p ≡ found p

  -- All of the transaction or none of it.
  abbrev pub Settled : Disk → Type 0
  Settled d = Original d ⊎ Installed d

  -- The entry is a transaction directory.
  pub record OnDisk (d : Disk) : Type 0 where
    pub present : d.present ≡ true
    pub is_directory : d.entry.is_directory ≡ true
    pub name : valid_transaction_id d.entry.name ≡ true

  -- The invariant of going back, over the files that the transaction found.
  abbrev pub From : Disk → Disk
  From d = record d { files = found }

  abbrev pub InDoubt : ℕ → Disk → Type 0
  InDoubt k d = Undoes env rs (From d) k d

  pub Undoes-InDoubt : {d : Disk} (e : Disk) (k : ℕ) → Undoes env rs (From e) k d → InDoubt k d
  Undoes-InDoubt e k u = record {
    undoable = u.undoable;
    undone = u.undone;
    others = u.others;
    present = refl;
    name = refl;
    is_directory = refl;
    journal = refl;
  }

  module _ (C K : Type 0) where
    -- The directory is gone, and with it all doubt.
    abbrev pub Gone : Disk → Type 0
    Gone d = (d.present ≡ false) × Settled d

  pub Undoes-Original : {d : Disk} → InDoubt 0 d → Original d
  Undoes-Original u = record {
    originals = λ i r a. u.undone i r a (omega arith);
    others = u.others;
  }

  module _ (js : Text → Journal) where
    -- What a crash may leave, where `js` are the journals that are read in the two states: no directory, one with no journal yet or no more, one whose journal says
    -- how to go back, or one whose journal says that all is done.
    pub data RecoverableBy (d : Disk) : Type 0 where
      gone : d.present ≡ false → Settled d → RecoverableBy d
      unrecorded : OnDisk d → d.entry.journal ≡ none → Settled d → RecoverableBy d
      undoing :
          OnDisk d → d.entry.journal ≡ some (js prepared) → InDoubt (length rs) d → RecoverableBy d
      finishing : OnDisk d → d.entry.journal ≡ some (js committed) → Installed d → RecoverableBy d

    -- The directory may go, in any order of its files.
    pub data RemovableBy (d : Disk) : Type 0 where
      no_journal : OnDisk d → d.entry.journal ≡ none → Settled d → RemovableBy d
      undone : OnDisk d → d.entry.journal ≡ some (js prepared) → InDoubt 0 d → RemovableBy d
      done : OnDisk d → d.entry.journal ≡ some (js committed) → Installed d → RemovableBy d

    pub Removable-Recoverable : {d : Disk} → RemovableBy d → RecoverableBy d
    Removable-Recoverable (no_journal o j s) = unrecorded o j s
    Removable-Recoverable (undone o j u) = undoing o j (forget env 0 (length rs) (omega arith) u)
    Removable-Recoverable (done o j s) = finishing o j s

    Removable-Settled : {d : Disk} → RemovableBy d → Settled d
    Removable-Settled (no_journal o j s) = s
    Removable-Settled (undone o j u) = inl (Undoes-Original u)
    Removable-Settled (done o j s) = inr s

    -- Without its backup a record that is undone stays so.
    unlinked : {d : Disk} (i : ℕ) → InDoubt 0 d → InDoubt 0 (edit_entry (unlink (backup_file i)) d)
    unlinked {d} i u = record {
      undoable = λ j r a. record {
        state = inl (u.undone j r a (omega arith));
        backup = λ x. elim (ℕ_discrete i j) [
          | yes e ↦ inl (rw (← e) (put_at_self d.entry.backups i none))
          | no ne ↦ rw (put_at_ne d.entry.backups i j none ne) ((u.undoable j r a).backup x)
        ];
      };
      undone = u.undone;
      others = u.others;
      present = refl;
      name = refl;
      is_directory = refl;
      journal = refl;
    }

    -- The candidates play no part in going back.
    without_candidate :
        {d : Disk} (i : ℕ) → InDoubt 0 d → InDoubt 0 (edit_entry (unlink (candidate_file i)) d)
    without_candidate i u = record {
      undoable =
          λ j r a. record { state = (u.undoable j r a).state; backup = (u.undoable j r a).backup };
      undone = u.undone;
      others = u.others;
      present = refl;
      name = refl;
      is_directory = refl;
      journal = refl;
    }

    same_entry : {d : Disk} (p : Piece) → OnDisk d → OnDisk (edit_entry (unlink p) d)
    same_entry (candidate_file i) o = record {
      present = o.present;
      is_directory = o.is_directory;
      name = o.name;
    }
    same_entry (backup_file i) o = record {
      present = o.present;
      is_directory = o.is_directory;
      name = o.name;
    }
    same_entry journal_file o = record {
      present = o.present;
      is_directory = o.is_directory;
      name = o.name;
    }

    same_files : {d : Disk} (p : Piece) → Settled d → Settled (edit_entry (unlink p) d)
    same_files p (inl s) = inl (record { originals = s.originals; others = s.others })
    same_files p (inr s) = inr (record { candidates = s.candidates; others = s.others })

    on_disk : {d : Disk} → RemovableBy d → OnDisk d
    on_disk (no_journal o j s) = o
    on_disk (undone o j u) = o
    on_disk (done o j s) = o

    unlink-Removable :
        {d : Disk} (p : Piece) → RemovableBy d → RemovableBy (edit_entry (unlink p) d)
    unlink-Removable journal_file m =
        no_journal (same_entry journal_file (on_disk m)) refl
          (same_files journal_file (Removable-Settled m))
    unlink-Removable (candidate_file i) (no_journal o j s) =
        no_journal (same_entry (candidate_file i) o) j (same_files (candidate_file i) s)
    unlink-Removable (candidate_file i) (undone o j u) =
        undone (same_entry (candidate_file i) o) j (without_candidate i u)
    unlink-Removable (candidate_file i) (done o j s) =
        done (same_entry (candidate_file i) o) j
          (record { candidates = s.candidates; others = s.others })
    unlink-Removable (backup_file i) (no_journal o j s) =
        no_journal (same_entry (backup_file i) o) j (same_files (backup_file i) s)
    unlink-Removable (backup_file i) (undone o j u) =
        undone (same_entry (backup_file i) o) j (unlinked i u)
    unlink-Removable (backup_file i) (done o j s) =
        done (same_entry (backup_file i) o) j
          (record { candidates = s.candidates; others = s.others })

    same_files_gone : {d : Disk} → Settled d → Settled (record d { present = false })
    same_files_gone (inl s) = inl (record { originals = s.originals; others = s.others })
    same_files_gone (inr s) = inr (record { candidates = s.candidates; others = s.others })

    module _ (C K : Type 0) where
      pub remove_pieces-Leaves :
          (ps : List Piece) (w : World)
          → Fine C K w
          → RemovableBy w.disk
          → Leaves C K (λ _. Gone C K) RecoverableBy RecoverableBy (remove_pieces ps w)
      unfolding remove_pieces
      remove_pieces-Leaves [] w q m =
          bind-Ends _ _
            (call-Leaves C K RemovableBy RecoverableBy RecoverableBy w q m (Removable-Recoverable m)
              (Removable-Recoverable m))
            (λ _ w' f. on_ok (f.0, (refl, same_files_gone (Removable-Settled f.1))))
      remove_pieces-Leaves (p ∷ ps) w q m =
          bind-Ends _ _
            (call-Leaves C K RemovableBy RecoverableBy RecoverableBy w q m (Removable-Recoverable m)
              (Removable-Recoverable m))
            (λ _ w' f. ok_then _ _ _ (
              remove_pieces-Leaves ps (record w' { disk = edit_entry (unlink p) w'.disk }) f.0
                (unlink-Removable p f.1)))

      pub remove_all-Leaves :
          (w : World)
          → Fine C K w
          → RemovableBy w.disk
          → Leaves C K (λ _. Gone C K) RecoverableBy RecoverableBy (remove_all w)
      unfolding remove_all
      remove_all-Leaves w q m = remove_pieces-Leaves w.sweep w q m

      pub remove_transaction_directory-Leaves :
          (name : Text) (w : World)
          → valid_transaction_id name ≡ true
          → Fine C K w
          → RemovableBy w.disk
          → Leaves C K
              (λ _. Gone C K)
              RecoverableBy
              RecoverableBy
              (remove_transaction_directory name w)
      unfolding remove_transaction_directory
      remove_transaction_directory-Leaves name w valid q m =
          if-Ends (valid_transaction_id name) (remove_all >> call) (raise (refuse_remove name)) w
            (λ _. bind-Ends _ _ (remove_all-Leaves w q m) (λ _ w' f.
              call-Leaves C K (Gone C K) RecoverableBy RecoverableBy w' f.0 f.1 (gone f.1.0 f.1.1)
                (gone f.1.0 f.1.1)))
            (λ t. cc (t, valid))

  abbrev pub Recoverable : Disk → Type 0
  Recoverable = RecoverableBy (recorded rs)

  abbrev pub Removable : Disk → Type 0
  Removable = RemovableBy (recorded rs)

-- Removing a transaction directory touches no managed file, whatever the directory holds.
module _ (C K : Type 0) (f : Text → Option Node) where
  abbrev pub SameFiles : Disk → Type 0
  SameFiles d = d.files ≡ f

  remove_pieces_files :
      (ps : List Piece) (w : World)
      → Fine C K w
      → SameFiles w.disk
      → Leaves C K (λ _. SameFiles) SameFiles SameFiles (remove_pieces ps w)
  unfolding remove_pieces
  remove_pieces_files [] w q e =
      bind-Ends _ _ (call-Leaves C K SameFiles SameFiles SameFiles w q e e e)
        (λ _ w' g. on_ok (g.0, g.1))
  remove_pieces_files (candidate_file i ∷ ps) w q e =
      bind-Ends _ _ (call-Leaves C K SameFiles SameFiles SameFiles w q e e e)
        (λ _ w' g. ok_then _ _ _ (remove_pieces_files ps _ g.0 g.1))
  remove_pieces_files (backup_file i ∷ ps) w q e =
      bind-Ends _ _ (call-Leaves C K SameFiles SameFiles SameFiles w q e e e)
        (λ _ w' g. ok_then _ _ _ (remove_pieces_files ps _ g.0 g.1))
  remove_pieces_files (journal_file ∷ ps) w q e =
      bind-Ends _ _ (call-Leaves C K SameFiles SameFiles SameFiles w q e e e)
        (λ _ w' g. ok_then _ _ _ (remove_pieces_files ps _ g.0 g.1))

  pub remove_all_files :
      (w : World)
      → Fine C K w
      → SameFiles w.disk
      → Leaves C K (λ _. SameFiles) SameFiles SameFiles (remove_all w)
  unfolding remove_all
  remove_all_files w q e = remove_pieces_files w.sweep w q e

  pub remove_transaction_directory_files :
      (name : Text) (w : World)
      → valid_transaction_id name ≡ true
      → Fine C K w
      → SameFiles w.disk
      → Leaves C K (λ _. SameFiles) SameFiles SameFiles (remove_transaction_directory name w)
  unfolding remove_transaction_directory
  remove_transaction_directory_files name w valid q e =
      if-Ends (valid_transaction_id name) (remove_all >> call) (raise (refuse_remove name)) w
        (λ _.
          bind-Ends _ _ (remove_all_files w q e)
            (λ _ w' g. call-Leaves C K SameFiles SameFiles SameFiles w' g.0 g.1 g.1 g.1))
        (λ t. cc (t, valid))
