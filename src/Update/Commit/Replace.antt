-- ===== src/Update/Commit/Replace.antt =====
-- Replacing the files under a prepared journal: at every moment the transaction can be undone.
use atum.Base.{
  ℕ, suc, ◌≤◌, ◌<◌, ◌+◌, true, false, Option, none, some, List, [], ◌∷◌, Text, length, get_elem?,
  get_elem?-of_le, lt-of_get_elem?, ◌≡◌, ◌≢◌, refl, sym, ◌∙◌, ap, subst, ◌⊎◌, inl, inr, arith,
}
use native.Mathlib.Decide.{ℕ_discrete, dec_lt}
use native.Mathlib.Nat.{add-zero}
use mathlib.Core.Option.{some-injective}
use atum.Update.Disk.{Node, Version, absent, Record, Disk, World}
use atum.Update.Disk.Put.{put_self, put_ne, put_at_ne}
use atum.Update.Version.{Env, version_of}
use atum.Update.Version.Calls.{IsAt}
use atum.Update.Journal.{written, prepared, backup_at, candidate_at}
use atum.Update.Journal.Calls.{ensure_managed_parent-Leaves}
use atum.Update.Ends.{on_ok, Fine, Leaves, bind-Ends, ok_then, if-Ends, call-Leaves}
use atum.Update.Recover.{remove, remove_from}
use atum.Update.Recover.Undoable.{At, AreValid}
use atum.Update.Recover.Settled.{OnDisk, InDoubt, Installed}
use atum.Update.Commit.{install_from, install, replace_record, replace}

module _ (env : Env) (rs : List Record) (found : Text → Option Node) where
  -- The first `k` files are the candidates, the others are the originals and are staged.
  pub record Replacing (k : ℕ) (d : Disk) : Type 0 where
    pub replaced : (j : ℕ) (r : Record) → At rs j r → j < k → IsAt env d r.path r.candidate
    pub waiting : (j : ℕ) (r : Record) → At rs j r → k ≤ j → IsAt env d r.path r.original
    pub staged :
        (j : ℕ) (r : Record)
        → At rs j r
        → k ≤ j
        → r.candidate.exists ≡ true
        → version_of env (candidate_at j d) ≡ some r.candidate
    pub backed :
        (j : ℕ) (r : Record)
        → At rs j r
        → r.original.exists ≡ true
        → version_of env (backup_at j d) ≡ some r.original
    pub others : (p : Text) → ((j : ℕ) (r : Record) → At rs j r → r.path ≢ p) → d.files p ≡ found p
    pub on_disk : OnDisk env rs found d
    pub journal : d.entry.journal ≡ some (written rs prepared)

  -- The journal and the directory say how to go back.
  pub record Marked (d : Disk) : Type 0 where
    pub on_disk : OnDisk env rs found d
    pub journal : d.entry.journal ≡ some (written rs prepared)
    pub doubt : InDoubt env rs found (length rs) d

  state_of :
      {d : Disk} (k : ℕ)
      → Replacing k d
      → (j : ℕ) (r : Record) → At rs j r
      → IsAt env d r.path r.original
        ⊎ (IsAt env d r.path r.candidate
            × (r.original.exists ≡ true → version_of env (backup_at j d) ≡ some r.original))
  state_of k s j r a = elim (dec_lt j k) [
    | yes h ↦ inr (s.replaced j r a h, s.backed j r a)
    | no h ↦ inl (s.waiting j r a (omega arith))
  ]

  pub marked : {d : Disk} (k : ℕ) → Replacing k d → Marked d
  marked {d} k s = record {
    on_disk = s.on_disk;
    journal = s.journal;
    doubt = record {
      undoable =
          λ j r a. record { state = state_of k s j r a; backup = λ x. inr (s.backed j r a x) };
      undone = λ j r a h. absurd (not_at j r a h);
      others = s.others;
      present = refl;
      name = refl;
      is_directory = refl;
      journal = refl;
    };
  }
    where
      not_at : (j : ℕ) (r : Record) → At rs j r → length rs ≤ j → ⊥
      not_at j r a h = cc (get_elem?-of_le rs j h, a)

  -- All files are the candidates.
  pub installed : {d : Disk} → Replacing (length rs) d → Installed env rs found d
  installed s = record {
    candidates = λ j r a. s.replaced j r a (lt-of_get_elem? rs j r a);
    others = s.others;
  }

  module _ (v : AreValid rs) (k : ℕ) (r : Record) (a : At rs k r) (d d' : Disk) (s : Replacing k d)
      (files : (p : Text) → r.path ≢ p → d'.files p ≡ d.files p)
      (candidates : (j : ℕ) → k ≢ j → candidate_at j d' ≡ candidate_at j d)
      (backups : (j : ℕ) → backup_at j d' ≡ backup_at j d) (same_present : d'.present ≡ d.present)
      (same_name : d'.entry.name ≡ d.entry.name)
      (same_is_directory : d'.entry.is_directory ≡ d.entry.is_directory)
      (same_journal : d'.entry.journal ≡ d.entry.journal)
      (candidate : IsAt env d' r.path r.candidate) where
    elsewhere : (j : ℕ) (q : Record) → At rs j q → k ≢ j → d'.files q.path ≡ d.files q.path
    elsewhere j q b ne = files q.path (λ e. ne (v.distinct k j r q a b e))

    now_replaced : (j : ℕ) (q : Record) → At rs j q → j < suc k → IsAt env d' q.path q.candidate
    now_replaced j q b h = elim (ℕ_discrete k j) [
      | yes e ↦
          subst (λ q. IsAt env d' q.path q.candidate)
            (some-injective _ _ (sym a ∙ ap (get_elem? rs) e ∙ b)) candidate
      | no ne ↦ rw (elsewhere j q b ne) (s.replaced j q b (omega arith))
    ]

    -- One more file is the candidate.
    advanced : Replacing (suc k) d'
    advanced = record {
      replaced = now_replaced;
      waiting = λ j q b h.
          rw (elsewhere j q b (λ e. absurd (omega arith))) (s.waiting j q b (omega arith));
      staged = λ j q b h x.
          rw (candidates j (λ e. absurd (omega arith))) (s.staged j q b (omega arith) x);
      backed = λ j q b x. rw (backups j) (s.backed j q b x);
      others = λ p free. files p (free k r a) ∙ s.others p free;
      on_disk = record {
        present = same_present ∙ s.on_disk.present;
        is_directory = same_is_directory ∙ s.on_disk.is_directory;
        name = rw same_name s.on_disk.name;
      };
      journal = same_journal ∙ s.journal;
    }

  module _ (C K : Type 0) (v : AreValid rs)
      (real : (j : ℕ) (r : Record)
        → At rs j r
        → r.candidate.exists ≡ false
        → r.original.exists ≡ true)
      (k : ℕ) (r : Record) (a : At rs k r) where
    install_from-Leaves :
        (n : Option Node) (w : World)
        → candidate_at k w.disk ≡ n
        → r.candidate.exists ≡ true
        → Fine C K w
        → Replacing k w.disk
        → Leaves C K (λ _. Replacing (suc k)) Marked Marked (install_from k r.path n w)
    install_from-Leaves none w e x q s =
        let o : ◌≡◌ {A = Option Version} (some absent) (some r.candidate) =
          ap (version_of env) (sym e) ∙ s.staged k r a (omega arith) x in
        absurd (ground (arith, o, x))
    install_from-Leaves (some n) w e x q s = on_ok (
      q,
      advanced v k r a w.disk _ s (λ p ne. put_ne w.disk.files r.path p (some n) ne)
          (λ j ne. put_at_ne w.disk.entry.candidates k j none ne) (λ j. refl) refl refl refl refl
          (rw (put_self w.disk.files r.path (some n))
            (ap (version_of env) (sym e) ∙ s.staged k r a (omega arith) x)),
    )

    install-Leaves :
        (w : World)
        → r.candidate.exists ≡ true
        → Fine C K w
        → Replacing k w.disk
        → Leaves C K (λ _. Replacing (suc k)) Marked Marked (install k r.path w)
    unfolding install
    install-Leaves w x q s =
        bind-Ends _ _ (call-Leaves C K (Replacing k) Marked Marked w q s (marked k s) (marked k s))
          (λ _ w' f. ok_then _ _ _ (install_from-Leaves (candidate_at k w'.disk) w' refl x f.0 f.1))

    remove_from-Leaves :
        (n : Option Node) (w : World)
        → w.disk.files r.path ≡ n
        → r.candidate.exists ≡ false
        → Fine C K w
        → Replacing k w.disk
        → Leaves C K (λ _. Replacing (suc k)) Marked Marked (remove_from r.path n w)
    remove_from-Leaves none w e x q s =
        let o : ◌≡◌ {A = Option Version} (some absent) (some r.original) =
          ap (version_of env) (sym e) ∙ s.waiting k r a (omega arith) in
        absurd (ground (arith, o, real k r a x))
    remove_from-Leaves (some n) w e x q s = on_ok (
      q,
      advanced v k r a w.disk _ s (λ p ne. put_ne w.disk.files r.path p none ne) (λ j ne. refl)
          (λ j. refl) refl refl refl refl
          (rw (put_self w.disk.files r.path none, v.no_candidate k r a x)),
    )

    remove-Leaves :
        (w : World)
        → r.candidate.exists ≡ false
        → Fine C K w
        → Replacing k w.disk
        → Leaves C K (λ _. Replacing (suc k)) Marked Marked (remove r.path w)
    unfolding remove
    remove-Leaves w x q s =
        bind-Ends _ _ (call-Leaves C K (Replacing k) Marked Marked w q s (marked k s) (marked k s))
          (λ _ w' f. ok_then _ _ _ (remove_from-Leaves (w'.disk.files r.path) w' refl x f.0 f.1))

    replace_record-Leaves :
        (w : World)
        → Fine C K w
        → Replacing k w.disk
        → Leaves C K (λ _. Replacing (suc k)) Marked Marked (replace_record k r w)
    unfolding replace_record
    replace_record-Leaves w q s =
        bind-Ends _ _
          (ensure_managed_parent-Leaves C K (Replacing k) Marked Marked
            (λ d s. (marked k s, marked k s)) r.path w (v.clean k r a) q s)
          (λ _ w1 f1.
            bind-Ends _ _
              (if-Ends r.candidate.exists (install k r.path) (remove r.path) w1
                (λ x. install-Leaves w1 x f1.0 f1.1) (λ x. remove-Leaves w1 x f1.0 f1.1))
              (λ _ w2 f2.
                call-Leaves C K (Replacing (suc k)) Marked Marked w2 f2.0 f2.1 (marked (suc k) f2.1)
                  (marked (suc k) f2.1)))

  module _ (C K : Type 0) (v : AreValid rs)
      (real : (j : ℕ) (r : Record)
        → At rs j r
        → r.candidate.exists ≡ false
        → r.original.exists ≡ true) where
    -- The loop ends with every file replaced, or with a transaction that can be undone.
    pub replace-Leaves :
        (k : ℕ) (l : List Record) (w : World)
        → ((j : ℕ) (r : Record) → At l j r → At rs (k + j) r)
        → Fine C K w
        → Replacing k w.disk
        → Leaves C K (λ _. Replacing (k + length l)) Marked Marked (replace k l w)
    unfolding replace
    replace-Leaves k [] w at q s = on_ok (q, rw (add-zero k) s)
    replace-Leaves k (r ∷ l) w at q s =
        let a : At rs k r = rw (← add-zero k) (at 0 r refl) in
        bind-Ends _ _ (replace_record-Leaves C K v real k r a w q s) (λ _ w1 f1.
          let shift : (j : ℕ) → suc k + j ≡ k + suc j = λ j. omega arith in
          rw (← shift (length l))
            (replace-Leaves (suc k) l w1 (λ j e h. rw (shift j) (at (suc j) e h)) f1.0 f1.1))
