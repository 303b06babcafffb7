-- ===== src/Update/Commit/Body.antt =====
-- `Commit` from the staging to the end of the work in the transaction directory.
use atum.Base.{
  ℕ, Bool, true, false, Option, none, some, List, Text, length, ◌≡◌, refl, ◌∙◌, ap, ◌⊎◌, inl, inr,
}
use atum.Update.Disk.{Node, Record, Journal, Disk, World, Error, joined, Attempt, done, failed}
use atum.Update.Version.{Env, version_of}
use atum.Update.Encode.{encoded}
use atum.Update.Journal.{
  written, committed, journal_of, set_journal, write_transaction_journal, synced, renamed,
  valid_transaction_id, remove_transaction_directory,
}
use atum.Update.Ends.{
  Ends, on_ok, on_err, Failed, Fine, Leaves, Caught, bind-Ends, try-Ends, ok_then, call-Leaves,
  calls-Leaves, weaken-Ends, both-Ends,
}
use atum.Update.Recover.{rollback, rolled_back}
use atum.Update.Recover.Undoable.{At, AreValid}
use atum.Update.Recover.Settled.{
  Original, Installed, Settled, OnDisk, InDoubt, RecoverableBy, gone, unrecorded, undoing,
  finishing, RemovableBy, no_journal, undone, Removable-Recoverable, Gone,
  remove_transaction_directory-Leaves, remove_transaction_directory_files,
}
use atum.Update.Recover.Settled
use atum.Update.Recover.Restart.{settle_prepared}
use atum.Update.Commit.{Exit, finished, kept, removed, conclude, publish}
use atum.Update.Commit.Replace.{Replacing, Marked, marked, installed}

-- How `writeTransactionJournal` ends: `J` once the journal is published, `F` before.
abbrev pub Wrote : Type 0 → (Disk → Type 0) → (Disk → Type 0) → Bool × Option Error → Disk → Type 0
Wrote C F J (true, none) d = J d
Wrote C F J (true, some e) d = (C → ⊥) × J d
Wrote C F J (false, none) d = ⊥
Wrote C F J (false, some e) d = (C → ⊥) × F d

module _ (C K : Type 0) (j : Journal) (F J G H : Disk → Type 0)
    (publish : (d : Disk) → F d → J (set_journal (encoded j) d)) (pass : (d : Disk) → F d → H d)
    (pass' : (d : Disk) → J d → H d) where
  synced-Leaves :
      (a : Attempt (Unit {0})) (w : World)
      → Caught (λ _ w. Fine C K w × J w.disk) (λ _ w. Failed C K w × J w.disk) a w
      → Leaves C K (Wrote C F J) G H (synced a w)
  synced-Leaves (done _) w f = on_ok f
  synced-Leaves (failed e) w f = on_ok (((λ c. absurd (f.0.0 c)), f.0.1), (f.0.0, f.1))

  renamed-Leaves :
      (a : Attempt (Unit {0})) (w : World)
      → Caught (λ _ w. Fine C K w × F w.disk) (λ _ w. Failed C K w × F w.disk) a w
      → Leaves C K (Wrote C F J) G H (renamed j a w)
  renamed-Leaves (failed e) w f = on_ok (((λ c. absurd (f.0.0 c)), f.0.1), (f.0.0, f.1))
  renamed-Leaves (done _) w f =
      let x : J (set_journal (encoded j) w.disk) = publish w.disk f.1 in
      ok_then _ _ _ (
        bind-Ends _ _
          (try-Ends _ (
            call-Leaves C K J J H (record w { disk = set_journal (encoded j) w.disk }) f.0 x x
              (pass' (set_journal (encoded j) w.disk) x)))
          (λ a w' g. synced-Leaves a w' g))

  -- The journal is there or it is not; an error says which.
  pub write-Leaves :
      (w : World)
      → Fine C K w
      → F w.disk
      → Leaves C K (Wrote C F J) G H (write_transaction_journal j w)
  unfolding write_transaction_journal
  write-Leaves w q f =
      bind-Ends _ _ (try-Ends _ (calls-Leaves C K F F H (λ d f. (f, pass d f)) 6 w q f))
        (λ a w' g. renamed-Leaves a w' g)

-- Errors of a rollback that failed.
abbrev pub IsJoined : Error → Type 0
IsJoined e = (a : Error) × (b : Error) × (e ≡ joined a b)

module _ (env : Env) (rs : List Record) (found : Text → Option Node) (C K : Type 0) where
  abbrev pub Safe : Disk → Type 0
  Safe = RecoverableBy env rs found (written rs)

  -- What is known when the work in the directory ends in an error: that the directory may go, or
  -- that going back has failed too.
  abbrev pub Broken : Error → World → Type 0
  Broken e w = Failed C K w × (RemovableBy env rs found (written rs) w.disk ⊎ IsJoined e)

  abbrev pub Died : World → Type 0
  Died w = (K → ⊥) × Safe w.disk

  abbrev pub Left : Exit → Disk → Type 0
  Left finished d = (d.present ≡ false) × Installed env rs found d
  Left (kept e) d = (C → ⊥) × Safe d

  pub Marked-Safe : (d : Disk) → Marked env rs found d → Safe d
  Marked-Safe d m = undoing m.on_disk m.journal m.doubt

  rollback-Ends :
      {A : Type 0} {Q : A → World → Type 0} (v : AreValid rs) (cause : Error) (w : World)
      → Failed C K w
      → Marked env rs found w.disk
      → Ends Q Broken Died (rollback env rs cause w)
  unfolding rollback
  rollback-Ends {A} {Q} v cause w nc m =
      bind-Ends _ _
        (try-Ends _ (
          settle_prepared env rs found (written rs) C K w v ((λ c. absurd (nc.0 c)), nc.1) m.on_disk
            m.journal m.doubt))
        (λ a w' f. give_up a w' f)
    where
      give_up :
          (a : Attempt (Unit {0})) (w : World)
          → Caught
              (λ _ w. Fine C K w × RemovableBy env rs found (written rs) w.disk)
              (λ _ w. Failed C K w × Safe w.disk)
              a
              w
          → Ends Q Broken Died (rolled_back cause a w)
      give_up (done _) w f = on_err ((nc.0, f.0.1), inl f.1)
      give_up (failed e) w f = on_err (f.0, inr (cause, e, refl))

  module _ (name : Text) (valid : valid_transaction_id name ≡ true) (v : AreValid rs)
      (real : (j : ℕ) (r : Record)
        → At rs j r
        → r.candidate.exists ≡ false
        → r.original.exists ≡ true) where
    abbrev Full : Disk → Type 0
    Full = Replacing env rs found (length rs)

    -- All is done, and the journal says so.
    abbrev Committed : Disk → Type 0
    Committed d =
        OnDisk env rs found d
        × (d.entry.journal ≡ some (written rs committed))
        × Installed env rs found d

    Committed-Safe : (d : Disk) → Committed d → Safe d
    Committed-Safe d c = finishing c.0 c.1 c.2

    publish_committed : (d : Disk) → Full d → Committed (set_journal (written rs committed) d)
    publish_committed d f =
        let i = installed env rs found f in
        (
          record {
            present = f.on_disk.present;
            is_directory = f.on_disk.is_directory;
            name = f.on_disk.name;
          },
          refl,
          record { candidates = i.candidates; others = i.others },
        )

    -- The directory of a committed transaction goes, and its files stay the candidates.
    remove-Committed :
        (w : World)
        → Fine C K w
        → Committed w.disk
        → Ends
            (λ _ w. Fine C K w × Left finished w.disk)
            (λ _ w. Failed C K w × Safe w.disk)
            Died
            (remove_transaction_directory name w)
    remove-Committed w q c =
        weaken-Ends _
          (both-Ends _
            (remove_transaction_directory-Leaves env rs found (written rs) C K name w valid q
              (Settled.done c.0 c.1 c.2))
            (remove_transaction_directory_files C K w.disk.files name w valid q refl))
          (λ _ w' f. (
            f.0.0,
            (
              f.0.1.0,
              record {
                candidates =
                    λ j r a. ap (λ g. version_of env (g r.path)) f.1.1 ∙ c.2.candidates j r a;
                others = λ p free. ap (λ g. g p) f.1.1 ∙ c.2.others p free;
              },
            ),
          ))
          (λ _ w' f. f.0) (λ w' f. f.0)

    removed-Ends :
        (a : Attempt (Unit {0})) (w : World)
        → Caught (λ _ w. Fine C K w × Left finished w.disk) (λ _ w. Failed C K w × Safe w.disk) a w
        → Ends (λ x w. Fine C K w × Left x w.disk) Broken Died (removed a w)
    removed-Ends (done _) w f = on_ok f
    removed-Ends (failed e) w f = on_ok (((λ c. absurd (f.0.0 c)), f.0.1), (f.0.0, f.1))

    conclude-Ends :
        (x : Bool × Option Error) (w : World)
        → Fine C K w
        → Wrote C Full Committed x w.disk
        → Ends (λ x w. Fine C K w × Left x w.disk) Broken Died (conclude env name rs x w)
    conclude-Ends (true, none) w q f =
        bind-Ends _ _ (try-Ends _ (remove-Committed w q f)) (λ a w' g. removed-Ends a w' g)
    conclude-Ends (false, none) w q f = absurd f
    conclude-Ends (true, some e) w q f = on_ok (q, (f.0, Committed-Safe w.disk f.1))
    conclude-Ends (false, some e) w q f =
        rollback-Ends v e w (f.0, q.1) (marked env rs found (length rs) f.1)

    pub publish-Ends :
        (a : Attempt (Unit {0})) (w : World)
        → Caught
            (λ _ w. Fine C K w × Full w.disk)
            (λ _ w. Failed C K w × Marked env rs found w.disk)
            a
            w
        → Ends (λ x w. Fine C K w × Left x w.disk) Broken Died (publish env name rs a w)
    publish-Ends (failed e) w f = rollback-Ends v e w f.0 f.1
    publish-Ends (done _) w f =
        bind-Ends _ _
          (weaken-Ends _
            (write-Leaves C K (journal_of committed rs) Full Committed (λ _. ⊥) Safe
              publish_committed (λ d f. Marked-Safe d (marked env rs found (length rs) f))
              Committed-Safe w f.0 f.1)
            (λ _ _ x. x) (λ _ _ x. absurd x.1) (λ _ x. x))
          (λ x w' g. conclude-Ends x w' g.0 g.1)
