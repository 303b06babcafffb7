-- ===== src/Update/Recover/Undoable.antt =====
-- The invariant under which a prepared transaction can be rolled back, and the writes that keep it.
use atum.Base.{
  ℕ, ◌≤◌, suc, true, false, none, some, List, Text, get_elem?, ◌≡◌, ◌≢◌, refl, ◌∙◌, subst, ◌⊎◌, inl,
  arith,
}
use native.Mathlib.Decide.{ℕ_discrete}
use atum.Fssecure.{relative}
use atum.Update.Disk.{Node, absent, Record, Disk, put}
use atum.Update.Disk.Put.{put_self, put_ne, put_at_self, put_at_ne}
use atum.Update.Version.{Env, version_of}
use atum.Update.Version.Calls.{IsAt}
use atum.Update.Journal.{backup_at}
use atum.Update.Recover.{restored_by}

-- Record `i` of a journal.
abbrev pub At : List Record → ℕ → Record → Type 0
At rs i r = get_elem? rs i ≡ some r

-- What the checks of a journal guarantee of its records.
pub record AreValid (rs : List Record) : Type 0 where
  pub clean : (i : ℕ) (r : Record) → At rs i r → relative r.path ≡ some r.path
  pub no_original :
      (i : ℕ) (r : Record) → At rs i r → r.original.exists ≡ false → r.original ≡ absent
  pub no_candidate :
      (i : ℕ) (r : Record) → At rs i r → r.candidate.exists ≡ false → r.candidate ≡ absent
  pub distinct : (i j : ℕ) (r q : Record) → At rs i r → At rs j q → r.path ≡ q.path → i ≡ j

module _ (env : Env) where
  -- The file of record `i` is the original, or it is the candidate and the original is in its
  -- backup; what is in the backup is the original.
  pub record IsUndoable (d : Disk) (i : ℕ) (r : Record) : Type 0 where
    pub state :
        IsAt env d r.path r.original
        ⊎ (IsAt env d r.path r.candidate
            × (r.original.exists ≡ true → version_of env (backup_at i d) ≡ some r.original))
    pub backup :
        r.original.exists ≡ true
        → (backup_at i d ≡ none) ⊎ (version_of env (backup_at i d) ≡ some r.original)

  -- Every record can be undone, those from `k` on are, other files are as they were at the start,
  -- and the transaction directory still holds its journal.
  pub record Undoes (rs : List Record) (start : Disk) (k : ℕ) (d : Disk) : Type 0 where
    pub undoable : (i : ℕ) (r : Record) → At rs i r → IsUndoable d i r
    pub undone : (i : ℕ) (r : Record) → At rs i r → k ≤ i → IsAt env d r.path r.original
    pub others :
        (p : Text) → ((i : ℕ) (r : Record) → At rs i r → r.path ≢ p) → d.files p ≡ start.files p
    pub present : d.present ≡ start.present
    pub name : d.entry.name ≡ start.entry.name
    pub is_directory : d.entry.is_directory ≡ start.entry.is_directory
    pub journal : d.entry.journal ≡ start.entry.journal

  -- Going back to an earlier mark forgets what has been undone.
  pub forget :
      {rs : List Record} {start d : Disk} (k l : ℕ)
      → k ≤ l
      → Undoes rs start k d
      → Undoes rs start l d
  forget k l h u = record {
    undoable = u.undoable;
    undone = λ i r a b. u.undone i r a (omega arith);
    others = u.others;
    present = u.present;
    name = u.name;
    is_directory = u.is_directory;
    journal = u.journal;
  }

  -- What a write at the path of record `i` leaves alone.
  record Spares (rs : List Record) (i : ℕ) (r : Record) (d d' : Disk) : Type 0 where
    files : (p : Text) → r.path ≢ p → d'.files p ≡ d.files p
    backups : (j : ℕ) → i ≢ j → backup_at j d' ≡ backup_at j d
    present : d'.present ≡ d.present
    name : d'.entry.name ≡ d.entry.name
    is_directory : d'.entry.is_directory ≡ d.entry.is_directory
    journal : d'.entry.journal ≡ d.entry.journal

  module _ (rs : List Record) (v : AreValid rs) (i : ℕ) (r : Record) (a : At rs i r) (d d' : Disk)
      (s : Spares rs i r d d') where
    spared_path : (j : ℕ) (q : Record) → At rs j q → i ≢ j → d'.files q.path ≡ d.files q.path
    spared_path j q b ne = s.files q.path (λ e. ne (v.distinct i j r q a b e))

    spared : (j : ℕ) (q : Record) → At rs j q → i ≢ j → IsUndoable d j q → IsUndoable d' j q
    spared j q b ne u = record {
      state = rw (spared_path j q b ne, s.backups j ne) u.state;
      backup = rw (s.backups j ne) u.backup;
    }

    same_record : (j : ℕ) (q : Record) → At rs j q → i ≡ j → r ≡ q
    same_record j q b e = cc

    module _ (start : Disk) (u : Undoes rs start (suc i) d)
        (original : IsAt env d' r.path r.original)
        (backup : r.original.exists ≡ true
          → (backup_at i d' ≡ none) ⊎ (version_of env (backup_at i d') ≡ some r.original)) where
      settled-IsUndoable : (j : ℕ) (q : Record) → At rs j q → IsUndoable d' j q
      settled-IsUndoable j q b = elim (ℕ_discrete i j) [
        | yes e ↦
            subst (λ j. IsUndoable d' j q) e
              (subst (IsUndoable d' i) (same_record j q b e)
                (record { state = inl original; backup = backup }))
        | no ne ↦ spared j q b ne (u.undoable j q b)
      ]

      settled_undone : (j : ℕ) (q : Record) → At rs j q → i ≤ j → IsAt env d' q.path q.original
      settled_undone j q b h = elim (ℕ_discrete i j) [
        | yes e ↦ subst (λ q. IsAt env d' q.path q.original) (same_record j q b e) original
        | no ne ↦ rw (spared_path j q b ne) (u.undone j q b (omega arith))
      ]

      -- A write that leaves record `i` with its original takes the mark one record down.
      settled : Undoes rs start i d'
      settled = record {
        undoable = settled-IsUndoable;
        undone = settled_undone;
        others = λ p free. s.files p (free i r a) ∙ u.others p free;
        present = s.present ∙ u.present;
        name = s.name ∙ u.name;
        is_directory = s.is_directory ∙ u.is_directory;
        journal = s.journal ∙ u.journal;
      }

  module _ (rs : List Record) (v : AreValid rs) (start : Disk) (i : ℕ) (r : Record) (a : At rs i r)
      (d : Disk) (u : Undoes rs start (suc i) d) where
    -- Putting the original back from its backup.
    pub restored_by-Undoes :
        (n : Node)
        → version_of env (some n) ≡ some r.original
        → Undoes rs start i (restored_by i r.path n d)
    restored_by-Undoes n e =
        settled rs v i r a d (restored_by i r.path n d)
          (record {
            files = λ p ne. put_ne d.files r.path p (some n) ne;
            backups = λ j ne. put_at_ne d.entry.backups i j none ne;
            present = refl;
            name = refl;
            is_directory = refl;
            journal = refl;
          })
          start u (rw (put_self d.files r.path (some n)) e)
          (λ _. inl (put_at_self d.entry.backups i none))

    -- Removing what the transaction put where there was no file.
    pub removed-Undoes :
        r.original.exists ≡ false → Undoes rs start i (record d { files = put d.files r.path none })
    removed-Undoes e =
        settled rs v i r a d (record d { files = put d.files r.path none })
          (record {
            files = λ p ne. put_ne d.files r.path p none ne;
            backups = λ j ne. refl;
            present = refl;
            name = refl;
            is_directory = refl;
            journal = refl;
          })
          start u (rw (put_self d.files r.path none, v.no_original i r a e)) (λ t. cc)

    -- Nothing to do: the original is in its place.
    pub kept-Undoes : IsAt env d r.path r.original → Undoes rs start i d
    kept-Undoes e =
        settled rs v i r a d d
          (record {
            files = λ p ne. refl;
            backups = λ j ne. refl;
            present = refl;
            name = refl;
            is_directory = refl;
            journal = refl;
          })
          start u e (u.undoable i r a).backup
