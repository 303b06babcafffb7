-- ===== src/Update/Commit/Crash.antt =====
-- `Commit` in the transaction directory, from its staging to its end.
use atum.Base.{
  ℕ, ◌<◌, Bool, true, false, Option, none, some, List, map, Text, length, length-map, get_elem?-map,
  lt-of_get_elem?, ◌≡◌, refl, sym, ◌∙◌, ap, inl, inr, arith,
}
use native.Mathlib.Nat.{zero-add}
use atum.Fssecure.{relative}
use atum.Update.Disk.{Record, Disk, World, Error, Result}
use atum.Update.Version.{Env}
use atum.Update.Version.Calls.{IsAt}
use atum.Update.Journal.{
  written, prepared, journal_of, set_journal, write_transaction_journal, valid_transaction_id,
}
use atum.Update.Ends.{Ends, on_err, Fine, Leaves, bind-Ends, try-Ends, calls-Leaves, weaken-Ends}
use atum.Update.Recover.Undoable.{At, AreValid}
use atum.Update.Recover.Settled.{RemovableBy, no_journal, undone, Removable-Recoverable}
use atum.Update.Transaction.{Change, Transaction, changed_files}
use atum.Update.Commit.{record_of, replace_under_journal, commit_body, Exit}
use atum.Update.Commit.Stage.{IsFaithful, Staging, fresh, stage-Leaves}
use atum.Update.Commit.Verify.{Nth, Matches, verify-Leaves}
use atum.Update.Commit.Replace.{Replacing, replace-Leaves}
use atum.Update.Commit.Body.{Wrote, write-Leaves, Broken, Died, Left, Marked-Safe, publish-Ends}

module _ (env : Env) (rs : List Record) (start : Disk) (present : start.present ≡ true)
    (is_directory : start.entry.is_directory ≡ true)
    (valid : valid_transaction_id start.entry.name ≡ true) (journal : start.entry.journal ≡ none)
    (original : (j : ℕ) (r : Record) → At rs j r → IsAt env start r.path r.original) where
  -- Before the journal nothing has happened to the managed files.
  fresh-Removable :
      (d : Disk) → Staging env rs start 0 d → RemovableBy env rs start.files (written rs) d
  fresh-Removable d s =
      no_journal
        (record {
          present = s.present ∙ present;
          is_directory = s.is_directory ∙ is_directory;
          name = rw s.name valid;
        })
        (s.journal ∙ journal)
        (inl (record {
          originals = λ j r a. rw s.files (original j r a);
          others = λ p _. ap (λ g. g p) s.files;
        }))

  -- Nor under the prepared journal, before the first file is replaced.
  unreplaced-Removable :
      (d : Disk) → Replacing env rs start.files 0 d → RemovableBy env rs start.files (written rs) d
  unreplaced-Removable d s = undone s.on_disk s.journal (record {
    undoable = λ j r a. record {
      state = inl (s.waiting j r a (omega arith));
      backup = λ x. inr (s.backed j r a x);
    };
    undone = λ j r a _. s.waiting j r a (omega arith);
    others = s.others;
    present = refl;
    name = refl;
    is_directory = refl;
    journal = refl;
  })

  publish_prepared :
      (at_most : (j : ℕ) (r : Record) → At rs j r → j < length rs) (d : Disk)
      → Staging env rs start (length rs) d
      → Replacing env rs start.files 0 (set_journal (written rs prepared) d)
  publish_prepared at_most d s = record {
    replaced = λ j r a h. absurd (omega arith);
    waiting = λ j r a _. rw s.files (original j r a);
    staged = λ j r a _ x. (s.staged j r a (at_most j r a)).candidate x;
    backed = λ j r a x. (s.staged j r a (at_most j r a)).backup x;
    others = λ p _. ap (λ g. g p) s.files;
    on_disk = record {
      present = s.present ∙ present;
      is_directory = s.is_directory ∙ is_directory;
      name = rw s.name valid;
    };
    journal = refl;
  }

  module _ (C K : Type 0) (v : AreValid rs)
      (real : (j : ℕ) (r : Record)
        → At rs j r
        → r.candidate.exists ≡ false
        → r.original.exists ≡ true) where
    abbrev Ended : Exit → World → Type 0
    Ended x w = Fine C K w × Left env rs start.files C K x w.disk

    abbrev Fresh : Disk → Type 0
    Fresh = Staging env rs start 0

    -- Up to the journal an error leaves a directory that may go.
    early :
        {A : Type 0} (Q : A → Disk → Type 0) (r : Result A × World)
        → Leaves C K Q Fresh Fresh r
        → Ends
            (λ a w. Fine C K w × Q a w.disk)
            (Broken env rs start.files C K)
            (Died env rs start.files C K)
            r
    early Q r h =
        weaken-Ends r h (λ _ _ x. x) (λ _ w x. (x.0, inl (fresh-Removable w.disk x.1)))
          (λ w x. (
            x.0,
            Removable-Recoverable env rs start.files (written rs) (fresh-Removable w.disk x.1),
          ))

    replace_under_journal-Ends :
        (name : Text)
        → valid_transaction_id name ≡ true
        → (x : Bool × Option Error) (w : World) → Fine C K w
        → Wrote C (Staging env rs start (length rs)) (Replacing env rs start.files 0) x w.disk
        → Ends Ended
            (Broken env rs start.files C K)
            (Died env rs start.files C K)
            (replace_under_journal env name rs x w)
    replace_under_journal-Ends name id (true, none) w q f =
        bind-Ends _ _
          (try-Ends _ (
            weaken-Ends _
              (replace-Leaves env rs start.files C K v real 0 rs w (λ j r a. rw (zero-add j) a) q f)
              (λ _ _ x. (x.0, rw (← zero-add (length rs)) x.1)) (λ _ _ x. x)
              (λ w' x. (x.0, Marked-Safe env rs start.files C K w'.disk x.1))))
          (λ a w' g. publish-Ends env rs start.files C K name id v real a w' g)
    replace_under_journal-Ends name id (false, none) w q f = absurd f
    replace_under_journal-Ends name id (true, some e) w q f =
        on_err ((f.0, q.1), inl (unreplaced-Removable w.disk f.1))
    replace_under_journal-Ends name id (false, some e) w q f =
        on_err ((f.0, q.1), inl (fresh-Removable w.disk (fresh env rs start (length rs) f.1)))

    -- The whole of the work in the directory.
    pub commit_body-Ends :
        (t : Transaction) (name : Text)
        → valid_transaction_id name ≡ true
        → map record_of (changed_files t.files) ≡ rs
        → ((j : ℕ) (e : Text × Change) → Nth (changed_files t.files) j e → IsFaithful env e.1)
        → ((j : ℕ) (e : Text × Change) → Nth t.files j e → relative e.0 ≡ some e.0)
        → Matches env start.files t
        → (w : World) → Fine C K w
        → Fresh w.disk
        → Ends Ended
            (Broken env rs start.files C K)
            (Died env rs start.files C K)
            (commit_body env name t w)
    unfolding commit_body
    commit_body-Ends t name id same_rs faithful clean m w q s =
        bind-Ends _ _ (early _ _ (calls-Leaves C K Fresh Fresh Fresh (λ _ f. (f, f)) 2 w q s))
          (λ _ w1 f1.
            bind-Ends _ _
              (early _ _ (
                stage-Leaves env rs start C K 0 changes w1 (λ j e h. rw (zero-add j) (at_rs j e h))
                  faithful expected f1.0 f1.1))
              (λ _ w2 f2.
                bind-Ends _ _
                  (early _ _ (
                    calls-Leaves C K Whole Fresh Fresh (λ _ f. (all_fresh f, all_fresh f)) 2 w2 f2.0
                      (rw (whole ∙ sym (zero-add (length changes))) f2.1)))
                  (λ _ w3 f3.
                    bind-Ends _ _
                      (early _ _ (
                        verify-Leaves env start.files C K Whole Fresh Fresh
                          (λ _ f. (f.files, all_fresh f, all_fresh f)) t w3 clean (λ _. m) f3.0
                          f3.1))
                      (λ _ w4 f4. rw same_rs (
                        bind-Ends _ _ (write w4 f4.0 f4.1.0)
                          (λ x w5 f5. replace_under_journal-Ends name id x w5 f5.0 f5.1))))))
      where
        changes : List (Text × Change)
        changes = changed_files t.files

        at_rs : (j : ℕ) (e : Text × Change) → Nth changes j e → At rs j (record_of e)
        at_rs j e h = rw (← same_rs) (get_elem?-map record_of changes j e h)

        expected :
            (j : ℕ) (e : Text × Change) → Nth changes j e → IsAt env start e.0 e.1.expected.version
        expected j e h = original j (record_of e) (at_rs j e h)

        whole : length rs ≡ length changes
        whole = ap length (sym same_rs) ∙ length-map record_of changes

        Whole : Disk → Type 0
        Whole = Staging env rs start (length rs)

        all_fresh : {d : Disk} → Staging env rs start (length rs) d → Fresh d
        all_fresh s = fresh env rs start (length rs) s

        write :
            (w : World)
            → Fine C K w
            → Staging env rs start (length rs) w.disk
            → Ends
                (λ x w.
                  Fine C K w
                  × Wrote C
                      (Staging env rs start (length rs))
                      (Replacing env rs start.files 0)
                      x
                      w.disk)
                (Broken env rs start.files C K)
                (Died env rs start.files C K)
                (write_transaction_journal (journal_of prepared rs) w)
        write w q s =
            weaken-Ends _
              (write-Leaves C K (journal_of prepared rs) Whole (Replacing env rs start.files 0)
                (λ _. ⊥) (RemovableBy env rs start.files (written rs))
                (publish_prepared (lt-of_get_elem? rs)) (λ d f. fresh-Removable d (all_fresh f))
                unreplaced-Removable w q s)
              (λ _ _ x. x) (λ _ _ x. absurd x.1)
              (λ _ x. (x.0, Removable-Recoverable env rs start.files (written rs) x.1))
