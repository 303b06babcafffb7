-- ===== src/Update/Recover/Restart.antt =====
-- `recoverTransactions` on a disk that a crash has left.
use atum.Base.{
  ℕ, Bool, true, false, ◌&&◌, Option, none, some, List, [], ◌∷◌, Text, str_eq, str_eq_iff, length,
  suc, ◌≡◌, ◌≢◌, refl, sym, ◌∙◌, arith,
}
use mathlib.Core.Option.{some-injective}
use atum.Fssecure.{relative}
use atum.Update.Disk.{
  Node, Result, ok, err, died, Version, Record, Journal, Entry, Disk, World, Error,
  unexpected_entry, uncommitted, raise,
}
use atum.Update.Version.{Env, present_as}
use atum.Update.Version.Calls.{IsAt, snapshot-Leaves}
use atum.Update.Journal.{
  prepared, committed, journal_of, recorded, valid_transaction_id, journal_problem,
  read_transaction_journal, read_journal, accept,
}
use atum.Update.Ends.{
  on_ok, on_err, on_died, Fine, Quiet-Fine, Quiet, Leaves, bind-Ends, ok_then, if-Ends, call-Leaves,
  weaken-Ends,
}
use atum.Update.Recover.{
  verify_committed, committed_as, recover_prepared, settle, recover_directory, recover_entry,
  recover_transactions,
}
use atum.Update.Recover.Undoable.{At, AreValid, Undoes}
use atum.Update.Recover.Undo.{recover_prepared-Leaves}
use atum.Update.Recover.Checked.{journal_problem-AreValid}
use atum.Update.Recover.Settled.{
  Installed, Settled, OnDisk, Recoverable, RecoverableBy, RemovableBy, gone, unrecorded, undoing,
  finishing, Removable, no_journal, undone, done, InDoubt, Undoes-InDoubt, From, Gone,
  remove_transaction_directory-Leaves,
}

both_true : (a b : Bool) → a ≡ true → b ≡ true → (a && b) ≡ false → ⊥
both_true a b p q h = ground arith

-- The check of a committed file cannot fail on the candidate.
committed_as_refl : (r : Record) (v : Version) → v ≡ r.candidate → committed_as r v ≡ true
unfolding present_as
committed_as_refl r v e = ground (arith, str_eq_iff v.digest r.candidate.digest)

module _ (env : Env) (C K : Type 0) (F H : Disk → Type 0) (pass : (d : Disk) → F d → H d) where
  -- A committed transaction passes, and the check changes nothing.
  verify_committed-Leaves :
      (l : List Record) (w : World)
      → ((j : ℕ) (q : Record) → At l j q → relative q.path ≡ some q.path)
      → ((j : ℕ) (q : Record) (d : Disk) → At l j q → F d → IsAt env d q.path q.candidate)
      → Fine C K w
      → F w.disk
      → Leaves C K (λ _. F) H H (verify_committed env l w)
  unfolding verify_committed
  verify_committed-Leaves [] w c at q f = on_ok (q, f)
  verify_committed-Leaves (r ∷ l) w c at q f =
      bind-Ends _ _
        (weaken-Ends _
          (snapshot-Leaves env C K F F r.path w (c 0 r refl) q (λ h _. cc (h, at 0 r w.disk refl f))
            f f)
          (λ _ _ x. x) (λ _ w x. (x.0, pass w.disk x.1)) (λ w x. (x.0, pass w.disk x.1)))
        (λ state w' x.
          if-Ends (committed_as r state) (verify_committed env l) (raise (uncommitted r.path)) w'
            (λ _. verify_committed-Leaves l w' (λ j. c (suc j)) (λ j. at (suc j)) x.0 x.1.0.0)
            (λ t. cc (
              t,
              committed_as_refl r state
                  (some-injective state r.candidate (sym x.1.1 ∙ at 0 r w'.disk refl x.1.0.0)),
            )))

module _ (env : Env) (rs : List Record) (found : Text → Option Node) (js : Text → Journal)
    (C K : Type 0) where
  -- The directory and its name stay while the files go back.
  still-OnDisk :
      {d e : Disk} (k : ℕ)
      → OnDisk env rs found e
      → Undoes env rs (From env rs found e) k d
      → OnDisk env rs found d
  still-OnDisk k o u = record {
    present = u.present ∙ o.present;
    is_directory = u.is_directory ∙ o.is_directory;
    name = rw u.name o.name;
  }

  undoing_of :
      (e d : Disk)
      → OnDisk env rs found e
      → e.entry.journal ≡ some (js prepared)
      → Undoes env rs (From env rs found e) (length rs) d
      → RecoverableBy env rs found js d
  undoing_of e d o j u =
      undoing (still-OnDisk (length rs) o u) (u.journal ∙ j)
        (Undoes-InDoubt env rs found e (length rs) u)

  undone_of :
      (e d : Disk)
      → OnDisk env rs found e
      → e.entry.journal ≡ some (js prepared)
      → Undoes env rs (From env rs found e) 0 d
      → RemovableBy env rs found js d
  undone_of e d o j u =
      undone (still-OnDisk 0 o u) (u.journal ∙ j) (Undoes-InDoubt env rs found e 0 u)

  -- Going back ends with a directory that may go.
  pub settle_prepared :
      (w : World)
      → AreValid rs
      → Fine C K w
      → OnDisk env rs found w.disk
      → w.disk.entry.journal ≡ some (js prepared)
      → InDoubt env rs found (length rs) w.disk
      → Leaves C K
          (λ _. RemovableBy env rs found js)
          (RecoverableBy env rs found js)
          (RecoverableBy env rs found js)
          (recover_prepared env rs w)
  settle_prepared w v q o j u =
      weaken-Ends _ (recover_prepared-Leaves env C K rs v (From env rs found w.disk) w q u)
        (λ _ w' f. (f.0, undone_of w.disk w'.disk o j f.1))
        (λ _ w' f. (f.0, undoing_of w.disk w'.disk o j f.1))
        (λ w' f. (f.0, undoing_of w.disk w'.disk o j f.1))

module _ (env : Env) (rs : List Record) (found : Text → Option Node) (C K : Type 0) where
  abbrev Safe : Disk → Type 0
  Safe = Recoverable env rs found

  -- The journals of the two states can be read where `C` holds.
  abbrev Readable : Type 0
  Readable =
      C
      → (journal_problem env (journal_of prepared rs) ≡ none)
        × (journal_problem env (journal_of committed rs) ≡ none)

  -- A journal that is read is the one on the disk, and it has passed the checks.
  abbrev Read : Option Journal → Disk → Type 0
  Read none d = d.entry.journal ≡ none
  Read (some j) d = (d.entry.journal ≡ some j) × (journal_problem env j ≡ none)

  accept-Leaves :
      (F : Disk → Type 0) (j : Journal) (p : Option Error) (w : World)
      → journal_problem env j ≡ p
      → (p ≢ none → C → ⊥)
      → ((d : Disk) → F d → Safe d)
      → Fine C K w
      → F w.disk
      → w.disk.entry.journal ≡ some j
      → Leaves C K (λ o d. F d × Read o d) Safe Safe (accept env j p w)
  accept-Leaves F j none w e never safe q f h = on_ok (q, (f, (h, e)))
  accept-Leaves F j (some x) w e never safe q f h =
      on_err ((never (λ (z : some x ≡ none). cc z), q.1), safe w.disk f)

  read_journal-Leaves :
      (F : Disk → Type 0) (o : Option Journal) (w : World)
      → w.disk.entry.journal ≡ o
      → ((j : Journal) → o ≡ some j → journal_problem env j ≢ none → C → ⊥)
      → ((d : Disk) → F d → Safe d)
      → Fine C K w
      → F w.disk
      → Leaves C K (λ o d. F d × Read o d) Safe Safe (read_journal env o w)
  read_journal-Leaves F none w e never safe q f = on_ok (q, (f, e))
  read_journal-Leaves F (some j) w e never safe q f =
      bind-Ends _ _
        (call-Leaves C K (λ d. F d × (d.entry.journal ≡ some j)) Safe Safe w q (f, e)
          (safe w.disk f) (safe w.disk f))
        (λ _ w' x.
          accept-Leaves F j (journal_problem env j) w' refl (never j refl) safe x.0 x.1.0 x.1.1)

  -- What `settle` is called with, in each of the three cases with a directory.
  data Case (d : Disk) : Type 0 where
    in_unrecorded : OnDisk env rs found d → d.entry.journal ≡ none → Settled env rs found d → Case d
    in_undoing :
        OnDisk env rs found d
        → d.entry.journal ≡ some (journal_of prepared rs)
        → InDoubt env rs found (length rs) d
        → Case d
    in_finishing :
        OnDisk env rs found d
        → d.entry.journal ≡ some (journal_of committed rs)
        → Installed env rs found d
        → Case d

  Case-Safe : (d : Disk) → Case d → Safe d
  Case-Safe d (in_unrecorded o j s) = unrecorded o j s
  Case-Safe d (in_undoing o j u) = undoing o j u
  Case-Safe d (in_finishing o j s) = finishing o j s

  settle_committed :
      (w : World)
      → AreValid rs
      → Fine C K w
      → OnDisk env rs found w.disk
      → w.disk.entry.journal ≡ some (journal_of committed rs)
      → Installed env rs found w.disk
      → Leaves C K (λ _. Removable env rs found) Safe Safe (verify_committed env rs w)
  settle_committed w v q o j s =
      weaken-Ends _
        (verify_committed-Leaves env C K
          (λ d.
            OnDisk env rs found d
            × (d.entry.journal ≡ some (journal_of committed rs))
            × Installed env rs found d)
          Safe (λ d f. finishing f.0 f.1 f.2) rs w v.clean (λ i r d a f. f.2.candidates i r a) q
          (o, j, s))
        (λ _ w' f. (f.0, done f.1.0 f.1.1 f.1.2)) (λ _ w' f. f) (λ w' f. f)

  settle-Leaves :
      (name : Text) (j : Option Journal) (w : World)
      → Fine C K w
      → Case w.disk
      → Read j w.disk
      → Leaves C K (λ _. Removable env rs found) Safe Safe (settle env name j w)
  unfolding str_eq
  settle-Leaves name none w q (in_unrecorded o e s) r = on_ok (q, no_journal o e s)
  settle-Leaves name none w q (in_undoing o e u) r = cc (e, r)
  settle-Leaves name none w q (in_finishing o e s) r = cc (e, r)
  settle-Leaves name (some j) w q (in_unrecorded o e s) r = cc (e, r.0)
  settle-Leaves name (some j) w q (in_undoing o e u) r =
      let k : j ≡ journal_of prepared rs = some-injective _ _ (sym r.0 ∙ e) in
      rw k (
        settle_prepared env rs found (recorded rs) C K w
          (journal_problem-AreValid env (journal_of prepared rs) (rw k at r.1)) q o e u)
  settle-Leaves name (some j) w q (in_finishing o e s) r =
      let k : j ≡ journal_of committed rs = some-injective _ _ (sym r.0 ∙ e) in
      rw k (
        settle_committed w (journal_problem-AreValid env (journal_of committed rs) (rw k at r.1)) q
          o e s)

  -- A journal of the transaction is accepted where `C` holds.
  never_refused :
      (d : Disk) (j : Journal)
      → Readable
      → Case d
      → d.entry.journal ≡ some j
      → journal_problem env j ≢ none
      → C
      → ⊥
  never_refused d j ready (in_unrecorded o e s) h p c = cc (e, h)
  never_refused d j ready (in_undoing o e u) h p c =
      p (rw (some-injective _ _ (sym h ∙ e)) ((ready c).0))
  never_refused d j ready (in_finishing o e s) h p c =
      p (rw (some-injective _ _ (sym h ∙ e)) ((ready c).1))

  Case-OnDisk : (d : Disk) → Case d → OnDisk env rs found d
  Case-OnDisk d (in_unrecorded o e s) = o
  Case-OnDisk d (in_undoing o e u) = o
  Case-OnDisk d (in_finishing o e s) = o

  abbrev Ended : Bool → Disk → Type 0
  Ended b d = Gone env rs found C K d

  examine-Leaves :
      (w : World)
      → Readable
      → Fine C K w
      → Case w.disk
      → Leaves C K (λ j d. Case d × Read j d) Safe Safe (read_transaction_journal env w)
  unfolding read_transaction_journal
  examine-Leaves w ready q c =
      bind-Ends _ _ (call-Leaves C K Case Safe Safe w q c (Case-Safe w.disk c) (Case-Safe w.disk c))
        (λ _ w' f. ok_then _ _ _ (
          read_journal-Leaves Case w'.disk.entry.journal w' refl
            (λ j e p. never_refused w'.disk j ready f.1 e p) Case-Safe f.0 f.1))

  recover_directory-Leaves :
      (name : Text) (w : World)
      → Readable
      → valid_transaction_id name ≡ true
      → Fine C K w
      → Case w.disk
      → Leaves C K Ended Safe Safe (recover_directory env name w)
  recover_directory-Leaves name w ready valid q c =
      bind-Ends _ _
        (bind-Ends _ _ (examine-Leaves w ready q c)
          (λ j w' f. settle-Leaves name j w' f.0 f.1.0 f.1.1))
        (λ _ w' f.
          bind-Ends _ _
            (remove_transaction_directory-Leaves env rs found (recorded rs) C K name w' valid f.0
              f.1)
            (λ _ w'' g. on_ok g))

  -- Without an entry there is nothing left to do.
  absent_entry : (d : Disk) → Safe d → d.present ≡ false → Gone env rs found C K d
  absent_entry d (gone p s) e = (e, s)
  absent_entry d (unrecorded o j s) e = cc (e, o.present)
  absent_entry d (undoing o j u) e = cc (e, o.present)
  absent_entry d (finishing o j s) e = cc (e, o.present)

  present-Case : (d : Disk) → Safe d → d.present ≡ true → Case d
  present-Case d (gone p s) e = cc (e, p)
  present-Case d (unrecorded o j s) e = in_unrecorded o j s
  present-Case d (undoing o j u) e = in_undoing o j u
  present-Case d (finishing o j s) e = in_finishing o j s

  recover_entry-Leaves :
      (b : Bool) (e : Entry) (w : World)
      → w.disk.present ≡ b
      → w.disk.entry ≡ e
      → Readable
      → Fine C K w
      → Safe w.disk
      → Leaves C K Ended Safe Safe (recover_entry env b e w)
  recover_entry-Leaves false e w p x ready q s = on_ok (q, absent_entry w.disk s p)
  recover_entry-Leaves true e w p x ready q s =
      let c : Case w.disk = present-Case w.disk s p in
      let o = Case-OnDisk w.disk c in
      let name : valid_transaction_id e.name ≡ true = rw (← x) o.name in
      if-Ends (e.is_directory && valid_transaction_id e.name) (recover_directory env e.name)
        (raise (unexpected_entry e.name)) w (λ _. recover_directory-Leaves e.name w ready name q c)
        (λ t. absurd (both_true _ _ (rw (← x) o.is_directory) name t))

  recover-Leaves :
      (w : World)
      → Readable
      → Fine C K w
      → Safe w.disk
      → Leaves C K Ended Safe Safe (recover_transactions env w)
  unfolding recover_transactions
  recover-Leaves w ready q s = bind-Ends _ _ (call-Leaves C K Safe Safe Safe w q s s s) (λ _ w' f.
      bind-Ends _ _ (call-Leaves C K Safe Safe Safe w' f.0 f.1 f.1 f.1) (λ _ w'' g.
        ok_then _ _ _
          (recover_entry-Leaves w''.disk.present w''.disk.entry w'' refl refl ready g.0 g.1)))

module _ (env : Env) (rs : List Record) (found : Text → Option Node) where
  -- From a recoverable disk, however a restart ends, whatever fails and wherever it is
  -- interrupted, the disk that it leaves is recoverable.
  pub recover_transactions-Recoverable :
      (w : World)
      → Recoverable env rs found w.disk
      → Recoverable env rs found (recover_transactions env w).1.disk
  recover_transactions-Recoverable w s =
      disk_of _
        (recover-Leaves env rs found ⊥ ⊥ w (λ c. absurd c) ((λ c. absurd c), (λ c. absurd c)) s)
    where
      disk_of :
          (r : Result Bool × World)
          → Leaves ⊥ ⊥
              (λ _. Gone env rs found ⊥ ⊥)
              (Recoverable env rs found)
              (Recoverable env rs found)
              r
          → Recoverable env rs found r.1.disk
      disk_of (ok b, w) (on_ok f) = gone f.1.0 f.1.1
      disk_of (err e, w) (on_err f) = f.1
      disk_of (died, w) (on_died f) = f.1

  -- From a recoverable disk, where no call fails and a restart accepts both journals of the
  -- transaction, a restart returns with the directory gone, and with all files of the transaction
  -- installed or none, and no other changed.
  pub recover_transactions-settles :
      (w : World)
      → Quiet w
      → Recoverable env rs found w.disk
      → journal_problem env (journal_of prepared rs) ≡ none
      → journal_problem env (journal_of committed rs) ≡ none
      → (b : Bool) × (w' : World) × (recover_transactions env w ≡ (ok b, w'))
        × (w'.disk.present ≡ false)
        × Settled env rs found w'.disk
  recover_transactions-settles w q s p c =
      returned _
        (recover-Leaves env rs found (Unit {0}) (Unit {0}) w (λ _. (p, c)) (Quiet-Fine w q) s)
    where
      returned :
          (r : Result Bool × World)
          → Leaves
              (Unit {0})
              (Unit {0})
              (λ _. Gone env rs found (Unit {0}) (Unit {0}))
              (Recoverable env rs found)
              (Recoverable env rs found)
              r
          → (b : Bool) × (w' : World) × (r ≡ (ok b, w'))
            × (w'.disk.present ≡ false)
            × Settled env rs found w'.disk
      returned (ok b, w) (on_ok f) = (b, w, refl, f.1.0, f.1.1)
      returned (err e, w) (on_err f) = absurd (f.0.0 tt)
      returned (died, w) (on_died f) = absurd (f.0 tt)
