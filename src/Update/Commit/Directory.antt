-- ===== src/Update/Commit/Directory.antt =====
-- The transaction directory: its creation, and what `Commit` defers.
use atum.Base.{ℕ, true, false, Option, some, List, Text, ◌≡◌, refl, ◌∙◌, ap, ◌⊎◌, inl, inr}
use atum.Update.Disk.{
  Node, Record, Disk, World, Error, Result, call, raise, ◌>>◌, change, Attempt, done, failed,
}
use atum.Update.Version.{Env, version_of}
use atum.Update.Journal.{written, valid_transaction_id}
use atum.Update.Ends.{
  Ends, on_ok, on_err, Failed, Fine, Leaves, Caught, bind-Ends, try-Ends, ok_then, call-Leaves,
  weaken-Ends,
}
use atum.Update.Recover.Undoable.{At}
use atum.Update.Recover.Settled.{
  Installed, Settled, RecoverableBy, gone, unrecorded, Gone, remove_all-Leaves, remove_all_files,
}
use atum.Update.Commit.{
  Exit, finished, kept, deferred, empty_entry, set_entry, created, create_transaction_directory,
}
use atum.Update.Commit.Body.{IsJoined, Safe, Broken, Left}

module _ (env : Env) (rs : List Record) (found : Text → Option Node) (C K : Type 0) where
  -- An error leaves what a restart can settle, unless going back has failed too.
  abbrev pub Erred : Error → World → Type 0
  Erred e w = Failed C K w × (Safe env rs found C K w.disk ⊎ IsJoined e)

  abbrev pub Crashed : World → Type 0
  Crashed w = (K → ⊥) × (C → Safe env rs found C K w.disk)

  abbrev pub Done : World → Type 0
  Done w = Fine C K w × ((w.disk.present ≡ false) × Installed env rs found w.disk)

  pub deferred-Ends :
      (a : Attempt Exit) (w : World)
      → Caught (λ x w. Fine C K w × Left env rs found C K x w.disk) (Broken env rs found C K) a w
      → Ends (λ _. Done) Erred Crashed (deferred a w)
  deferred-Ends (done finished) w f = on_ok f
  deferred-Ends (done (kept e)) w f = on_err ((f.1.0, f.0.1), inl f.1.1)
  deferred-Ends (failed e) w (nc, inl m) =
      bind-Ends _ _
        (try-Ends _ (
          weaken-Ends {E' = λ _ w. Failed C K w × Safe env rs found C K w.disk} _
            (remove_all-Leaves env rs found (written rs) C K w ((λ c. absurd (nc.0 c)), nc.1) m)
            (λ _ _ x. x) (λ _ _ x. x) (λ _ x. (x.0, λ _. x.1))))
        (λ a w' g. again a w' g)
    where
      again :
          (a : Attempt (Unit {0})) (w : World)
          → Caught
              (λ _ w. Fine C K w × Gone env rs found C K w.disk)
              (λ _ w. Failed C K w × Safe env rs found C K w.disk)
              a
              w
          → Ends {A = Unit {0}} (λ _. Done) Erred Crashed (raise e w)
      again (done _) w g = on_err ((nc.0, g.0.1), inl (gone g.1.0 g.1.1))
      again (failed _) w g = on_err (g.0, inl g.1)
  deferred-Ends (failed e) w (nc, inr j) =
      bind-Ends _ _
        (try-Ends _ (
          weaken-Ends {E' = λ _ w. Failed C K w} _
            (remove_all_files C K w.disk.files w ((λ c. absurd (nc.0 c)), nc.1) refl)
            (λ _ w x. (nc.0, x.0.1)) (λ _ _ x. x.0) (λ _ x. (x.0, λ c. absurd (nc.0 c)))))
        (λ a w' g. again a w' g)
    where
      again :
          (a : Attempt (Unit {0})) (w : World)
          → Caught (λ _ w. Failed C K w) (λ _ w. Failed C K w) a w
          → Ends {A = Unit {0}} (λ _. Done) Erred Crashed (raise e w)
      again (done _) w g = on_err (g, inr j)
      again (failed _) w g = on_err (g, inr j)

  module _ (name : Text) (d0 : Disk) (same_found : d0.files ≡ found)
      (valid : valid_transaction_id name ≡ true)
      (original : (j : ℕ) (r : Record)
        → At rs j r
        → version_of env (found r.path) ≡ some r.original) where
    -- The disk once the directory is made.
    abbrev opened : Disk
    opened = set_entry true (empty_entry name) d0

    settled : (d : Disk) → d.files ≡ found → Settled env rs found d
    settled d e =
        inl (record { originals = λ j r a. rw e (original j r a); others = λ p _. ap (λ g. g p) e })

    abbrev Ahead : Disk → Type 0
    Ahead d = (d.files ≡ found) × (d.present ≡ false)

    abbrev Opened : Disk → Type 0
    Opened d = d ≡ opened

    Ahead-Safe : (d : Disk) → Ahead d → Safe env rs found C K d
    Ahead-Safe d f = gone f.1 (settled d f.0)

    opened-Safe : Safe env rs found C K opened
    opened-Safe =
        unrecorded (record { present = refl; is_directory = refl; name = valid }) refl
          (settled opened same_found)

    Opened-Safe : (d : Disk) → Opened d → Safe env rs found C K d
    Opened-Safe d e = rw e opened-Safe

    created-Ends :
        (a : Attempt (Unit {0})) (w : World)
        → Caught (λ _ w. Fine C K w × Opened w.disk) (λ _ w. Failed C K w × Opened w.disk) a w
        → Ends (λ _ w. Fine C K w × Opened w.disk) Erred Crashed (created name a w)
    created-Ends (done _) w f = on_ok f
    created-Ends (failed e) w f =
        bind-Ends _ _
          (try-Ends _ (weaken-Ends _ close (λ _ _ x. x) (λ _ _ x. x) (λ _ x. (x.0, λ _. x.1))))
          (λ a w' g. again a w' g)
      where
        closed :
            (d : Disk) → Opened d → Safe env rs found C K (set_entry false (empty_entry name) d)
        closed d o = gone refl (settled _ (ap (λ d. d.files) o ∙ same_found))

        close :
            Leaves C K
              (λ _. RecoverableBy env rs found (written rs))
              (RecoverableBy env rs found (written rs))
              (RecoverableBy env rs found (written rs))
              ((call >> change (set_entry false (empty_entry name))) w)
        close =
            bind-Ends _ _
              (call-Leaves C K Opened (RecoverableBy env rs found (written rs))
                (RecoverableBy env rs found (written rs)) w ((λ c. absurd (f.0.0 c)), f.0.1) f.1
                (Opened-Safe w.disk f.1) (Opened-Safe w.disk f.1))
              (λ _ w' g. on_ok (g.0, closed w'.disk g.1))

        again :
            (a : Attempt (Unit {0})) (w : World)
            → Caught
                (λ _ w. Fine C K w × RecoverableBy env rs found (written rs) w.disk)
                (λ _ w. Failed C K w × RecoverableBy env rs found (written rs) w.disk)
                a
                w
            → Ends {A = Unit {0}} (λ _ w. Fine C K w × Opened w.disk) Erred Crashed (raise e w)
        again (done _) w g = on_err ((f.0.0, g.0.1), inl g.1)
        again (failed _) w g = on_err (g.0, inl g.1)

    -- Where the disk is still as it was found.
    abbrev Initial : Disk → Type 0
    Initial d = d ≡ d0

    weaken_Safe :
        {A : Type 0} (Q : A → World → Type 0) (r : Result A × World)
        → Ends Q
            (λ _ w. Failed C K w × Safe env rs found C K w.disk)
            (λ w. (K → ⊥) × Safe env rs found C K w.disk)
            r
        → Ends Q Erred Crashed r
    weaken_Safe Q r h =
        weaken-Ends r h (λ _ _ x. x) (λ _ _ x. (x.0, inl x.1)) (λ _ x. (x.0, λ _. x.1))

    pub create-Ends :
        (w : World)
        → d0.present ≡ false
        → Fine C K w
        → Initial w.disk
        → Ends
            (λ _ w. Fine C K w × Opened w.disk)
            Erred
            Crashed
            (create_transaction_directory name w)
    unfolding create_transaction_directory
    create-Ends w p q f = bind-Ends _ _ (once w q f) (λ _ w1 f1.
        bind-Ends _ _ (once w1 f1.0 f1.1) (λ _ w2 f2. bind-Ends _ _ (once w2 f2.0 f2.1) (λ _ w3 f3.
          ok_then _ _ _ (
            bind-Ends _ _
              (try-Ends _ (
                weaken-Ends {E' = λ _ w. Failed C K w × Opened w.disk} _
                  (call-Leaves C K Opened Opened Opened
                    (record w3 { disk = set_entry true (empty_entry name) w3.disk }) f3.0
                    (made w3.disk f3.1) (made w3.disk f3.1) (made w3.disk f3.1))
                  (λ _ _ x. x) (λ _ _ x. x) (λ w x. (x.0, λ _. Opened-Safe w.disk x.1))))
              (λ a w4 f4. created-Ends a w4 f4)))))
      where
        made : (d : Disk) → Initial d → Opened (set_entry true (empty_entry name) d)
        made d e = ap (set_entry true (empty_entry name)) e

        safe : (d : Disk) → Initial d → Safe env rs found C K d
        safe d e = rw e (Ahead-Safe d0 (same_found, p))

        once :
            (w : World)
            → Fine C K w
            → Initial w.disk
            → Ends (λ _ w. Fine C K w × Initial w.disk) Erred Crashed (call w)
        once w q f =
            weaken_Safe (λ _ w. Fine C K w × Initial w.disk) _
              (call-Leaves C K Initial (RecoverableBy env rs found (written rs))
                (RecoverableBy env rs found (written rs)) w q f (safe w.disk f) (safe w.disk f))
