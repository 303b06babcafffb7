-- ===== src/Update/Commit/AllOrNothing.antt =====
-- `Commit` as a whole: all of a transaction or none of it.
use atum.Base.{
  ℕ, Bool, true, false, none, some, List, [], ◌∷◌, map, Text, ◌≡◌, refl, sym, ◌∙◌, ap, subst, ◌⊎◌,
  inl, inr, arith,
}
use atum.Update.Disk.{Record, Disk, World, Error, Result, ok, ◌>>=◌, ◌>>◌, try}
use atum.Update.Version.{Env, version_of}
use atum.Update.Journal.{journal_problem, journal_of, prepared, committed, valid_transaction_id}
use atum.Update.Ends.{
  Ends, on_ok, Quiet, NoBad, Failed, Fine, Quiet-Fine, Leaves, bind-Ends, try-Ends, ok_then,
  call-Leaves, weaken-Ends, ok_of, returned, always,
}
use atum.Update.Recover.{recover_transactions, recover_entry}
use atum.Update.Recover.Restart.{recover_transactions-settles}
use atum.Update.Recover.Undoable.{At}
use atum.Update.Recover.Settled.{Installed, Settled, Recoverable, gone}
use atum.Update.Transaction.{Change, Transaction, changed_files}
use atum.Update.Transaction.WellFormed.{
  IsSound, IsWellFormed, All-Nth, records-AreValid, entry_of, Nth_changed, deleted_exists,
}
use atum.Update.Commit.{
  record_of, commit_body, deferred, empty_entry, set_entry, create_transaction_directory,
  commit_changes, after_recovery, commit,
}
use atum.Update.Commit.Written.{HaveUtf8, written-Recoverable}
use atum.Update.Commit.Stage.{IsFaithful, Staging}
use atum.Update.Commit.Verify.{Nth, Matches, verify-Leaves}
use atum.Update.Commit.Body.{IsJoined, Safe}
use atum.Update.Commit.Crash.{commit_body-Ends}
use atum.Update.Commit.Directory.{Erred, Crashed, Done, deferred-Ends, create-Ends}

-- A commit over a transaction root that is empty.
module _ (env : Env) (C K : Type 0) (name : Text) (t : Transaction) (v : IsWellFormed env t.files)
    (valid : valid_transaction_id name ≡ true) (d0 : Disk) (empty : d0.present ≡ false) where
  abbrev rs : List Record
  rs = map record_of (changed_files t.files)

  abbrev Begun : Disk → Type 0
  Begun d = d ≡ d0

  -- How a commit ends. It may also find, before it does anything, that the files are not as
  -- expected.
  abbrev pub Refused : Error → World → Type 0
  Refused e w = Failed C K w × ((w.disk ≡ d0) ⊎ (Safe env rs d0.files C K w.disk ⊎ IsJoined e))

  abbrev pub Halted : World → Type 0
  Halted w = (K → ⊥) × (C → Safe env rs d0.files C K w.disk)

  recover_entry_empty :
      (b : Bool) (w : World)
      → w.disk.present ≡ b
      → Fine C K w
      → Begun w.disk
      → Leaves C K
          (λ interrupted d. (interrupted ≡ false) × Begun d)
          Begun
          Begun
          (recover_entry env b w.disk.entry w)
  recover_entry_empty false w p q f = on_ok (q, (refl, f))
  recover_entry_empty true w p q f =
      let x : w.disk.present ≡ false = ap (λ d. d.present) f ∙ empty in cc (p, x)

  recover-Leaves :
      (w : World)
      → Fine C K w
      → Begun w.disk
      → Leaves C K
          (λ interrupted d. (interrupted ≡ false) × Begun d)
          Begun
          Begun
          (recover_transactions env w)
  unfolding recover_transactions
  recover-Leaves w q f = bind-Ends _ _ (call-Leaves C K Begun Begun Begun w q f f f) (λ _ w1 f1.
      bind-Ends _ _ (call-Leaves C K Begun Begun Begun w1 f1.0 f1.1 f1.1 f1.1)
        (λ _ w2 f2. ok_then _ _ _ (recover_entry_empty w2.disk.present w2 refl f2.0 f2.1)))

  original_of :
      Matches env d0.files t
      → (j : ℕ) (r : Record) → At rs j r
      → version_of env (d0.files r.path) ≡ some r.original
  original_of m j r a =
      let (e, h) = entry_of env (changed_files t.files) j r a in
      subst (λ r. version_of env (d0.files r.path) ≡ some r.original) h.1
        (Nth_changed env (λ e. version_of env (d0.files e.0) ≡ some e.1.expected.version) t.files
          m.files j e h.0)

  entry-IsSound : (j : ℕ) (e : Text × Change) → Nth t.files j e → IsSound env e
  entry-IsSound j e a = All-Nth (IsSound env) t.files j e v.sound a

  refused :
      {Q : Unit {0} → World → Type 0} (r : Result (Unit {0}) × World)
      → Ends Q (Erred env rs d0.files C K) (Crashed env rs d0.files C K) r
      → Ends Q Refused Halted r
  refused r h = weaken-Ends r h (λ _ _ x. x) (λ _ _ x. (x.0, inr x.1)) (λ _ x. x)

  fresh_opened :
      (d : Disk)
      → d ≡ set_entry true (empty_entry name) d0
      → Staging env rs (set_entry true (empty_entry name) d0) 0 d
  fresh_opened d e = record {
    files = ap (λ d. d.files) e;
    present = ap (λ d. d.present) e;
    name = ap (λ d. d.entry.name) e;
    is_directory = ap (λ d. d.entry.is_directory) e;
    journal = ap (λ d. d.entry.journal) e;
    staged = λ j r a h. absurd (omega arith);
  }

  commit_in_directory :
      (w : World)
      → Matches env d0.files t
      → Fine C K w
      → Begun w.disk
      → Ends
          (λ _. Done env rs d0.files C K)
          Refused
          Halted
          ((create_transaction_directory name >> (try (commit_body env name t) >>= deferred)) w)
  commit_in_directory w m q f = refused _ (
      bind-Ends _ _ (create-Ends env rs d0.files C K name d0 refl valid (original_of m) w empty q f)
        (λ _ w1 f1.
          bind-Ends _ _
            (try-Ends _ (
              weaken-Ends _
                (commit_body-Ends env rs (set_entry true (empty_entry name) d0) refl refl valid refl
                  (original_of m) C K (records-AreValid env t.files v)
                  (deleted_exists env t.files v) t name valid refl
                  (Nth_changed env (λ e. IsFaithful env e.1) t.files
                    (λ j e a. (entry-IsSound j e a).1.1.1))
                  (λ j e a. (entry-IsSound j e a).0) m w1 f1.0 (fresh_opened w1.disk f1.1))
                (λ _ _ x. x) (λ _ _ x. x) (λ _ x. (x.0, λ _. x.1))))
            (λ a w2 f2. deferred-Ends env rs d0.files C K a w2 f2)))

  none_there : (j : ℕ) (r : Record) → At (map record_of []) j r → ⊥
  none_there j r a = cc (a)

  commit_changes-Ends :
      (l : List (Text × Change)) (w : World)
      → changed_files t.files ≡ l
      → Matches env d0.files t
      → Fine C K w
      → Begun w.disk
      → Ends (λ _. Done env rs d0.files C K) Refused Halted (commit_changes env name t l w)
  commit_changes-Ends [] w e m q f = on_ok (
    q,
    (
      ap (λ d. d.present) f ∙ empty,
      record {
        candidates = λ j r a. absurd (none_there j r (subst (λ l. At (map record_of l) j r) e a));
        others = λ p _. ap (λ d. d.files p) f;
      },
    ),
  )
  commit_changes-Ends (x ∷ l) w e m q f = commit_in_directory w m q f

  -- The whole of `Commit`.
  pub commit-Ends :
      (w : World)
      → (C → Matches env d0.files t)
      → Fine C K w
      → Begun w.disk
      → Ends (λ _. Done env rs d0.files C K) Refused Halted (commit env name t w)
  unfolding commit
  commit-Ends w ok_if q f = bind-Ends _ _ (before _ (recover-Leaves w q f)) (λ b w1 f1.
      subst
        (λ b. Ends (λ _. Done env rs d0.files C K) Refused Halted (after_recovery env name t b w1))
        (sym f1.1.0)
        (bind-Ends _ _
          (before _ (
            verify-Leaves env d0.files C K Begun Begun Begun (λ _ e. (ap (λ d. d.files) e, e, e)) t
              w1 (λ j e a. (entry-IsSound j e a).0) ok_if f1.0 f1.1.1))
          (λ _ w2 f2. commit_changes-Ends (changed_files t.files) w2 refl f2.1.1 f2.0 f2.1.0)))
    where
      before :
          {A : Type 0} {Q : A → World → Type 0} (r : Result A × World)
          → Ends Q (λ _ w. Failed C K w × Begun w.disk) (λ w. (K → ⊥) × Begun w.disk) r
          → Ends Q Refused Halted r
      before r h =
          weaken-Ends r h (λ _ _ x. x) (λ _ _ x. (x.0, inl x.1))
            (λ w x. (
              x.0,
              λ c. rw x.1 (
                  gone empty
                    (inl (record { originals = original_of (ok_if c); others = λ p _. refl }))),
            ))

module _ (env : Env) (name : Text) (t : Transaction) (v : IsWellFormed env t.files)
    (valid : valid_transaction_id name ≡ true) (w : World) (empty : w.disk.present ≡ false) where
  abbrev changes : List Record
  changes = map record_of (changed_files t.files)

  -- A commit that returns no error, whatever failed on its way, has installed every changed file
  -- of the transaction, has changed no other, and has left nothing in the transaction root: for a
  -- well-formed transaction, a valid directory name and a transaction root that was empty.
  pub commit-Installed :
      (w' : World)
      → commit env name t w ≡ (ok tt, w')
      → (w'.disk.present ≡ false) × Installed env changes w.disk.files w'.disk
  commit-Installed w' e =
      (ok_of _ tt w' e (
        commit-Ends env ⊥ ⊥ name t v valid w.disk empty w (λ c. absurd c)
          ((λ c. absurd c), (λ c. absurd c)) refl)).1

  -- Where no call fails, nothing is interrupted and the files are as expected, a commit returns
  -- with all changed files installed, no other changed, and the transaction root empty: for a
  -- well-formed transaction, a valid directory name and a transaction root that was empty.
  pub commit_returns :
      Quiet w
      → Matches env w.disk.files t
      → (w' : World) × (commit env name t w ≡ (ok tt, w'))
        × (w'.disk.present ≡ false)
        × Installed env changes w.disk.files w'.disk
  commit_returns q m =
      let (_, w', x, f) =
        returned _
          (commit-Ends env Unit Unit name t v valid w.disk empty w (λ _. m) (Quiet-Fine w q) refl)
          (λ _ _ x. x.0.0 tt) (λ _ x. x.0 tt) in
      (w', x, f.1.0, f.1.1)

  pub commit-Recoverable :
      NoBad w.script
      → HaveUtf8 changes
      → Matches env w.disk.files t
      → Recoverable env changes w.disk.files (commit env name t w).1.disk
  commit-Recoverable q utf8 m = written-Recoverable env t.files v w.disk.files _ utf8 (
      always (Safe env changes w.disk.files Unit ⊥) _
        (commit-Ends env Unit ⊥ name t v valid w.disk empty w (λ _. m) ((λ _. q), (λ c. absurd c))
          refl)
        (λ _ _ f. gone f.1.0 (inr f.1.1)) (λ _ _ f. absurd (f.0.0 tt)) (λ _ f. f.1 tt))

  -- However far an interrupted commit came, a restart from its disk returns with the transaction
  -- root empty and all changed files of the transaction installed or none, and no other file
  -- changed: where no call of either fails, the files were as expected and a restart accepts both
  -- journals, for a well-formed transaction whose paths are valid UTF-8, a valid directory name and a
  -- transaction root that was empty.
  pub commit-recover_transactions :
      NoBad w.script
      → HaveUtf8 changes
      → Matches env w.disk.files t
      → journal_problem env (journal_of prepared changes) ≡ none
      → journal_problem env (journal_of committed changes) ≡ none
      → (w2 : World) → Quiet w2
      → w2.disk ≡ (commit env name t w).1.disk
      → (b : Bool) × (w' : World) × (recover_transactions env w2 ≡ (ok b, w'))
        × (w'.disk.present ≡ false)
        × Settled env changes w.disk.files w'.disk
  commit-recover_transactions q utf8 m p c w2 q2 e =
      recover_transactions-settles env changes w.disk.files w2 q2
        (rw e (commit-Recoverable q utf8 m)) p c
