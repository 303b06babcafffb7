-- ===== src/Update/Recover/Undo/Turn.antt =====
-- One turn of the loop of `recoverPreparedTransaction`.
use atum.Base.{
  ℕ, suc, Bool, true, false, ◌&&◌, Option, none, some, List, ◌≡◌, refl, sym, ◌∙◌, ap, inl, inr,
  if◌then◌else◌,
}
use mathlib.Core.Bool.{false≢true}
use mathlib.Core.Option.{some-injective}
use atum.Update.Disk.{
  Node, Version, Record, Disk, World, raise, pure, ◌>>=◌, Attempt, done, failed, refused,
  backup_mismatch, unproven, changed_new,
}
use atum.Update.Version.{Env, version_of, present_as, snapshot, regular_file_version}
use atum.Update.Version.Calls.{IsAt, Reads, snapshot-Leaves, regular_file_version-Leaves}
use atum.Update.Journal.{backup_at}
use atum.Update.Journal.Calls.{ensure_managed_parent-Leaves}
use atum.Update.Ends.{
  on_ok, on_err, Failed, Fine, Leaves, Caught, bind-Ends, try-Ends, ok_then, if-Ends, call-Leaves,
}
use atum.Update.Recover.{
  rename_backup, rename_backup_from, remove, remove_from, is_foreign, restore_current,
  check_restored, restore_from, retract, undo, recover_record,
}
use atum.Update.Recover.Undoable.{
  At, AreValid, Undoes, restored_by-Undoes, removed-Undoes, kept-Undoes,
}
use atum.Update.Recover.Undo.Versions.{
  present_as→eq, present_as_refl, and_true, some-absent, not_refused,
}

module _ (env : Env) (C K : Type 0) (rs : List Record) (v : AreValid rs) (start : Disk) (i : ℕ)
    (r : Record) (a : At rs i r) where
  abbrev Before : Disk → Type 0
  Before = Undoes env rs start (suc i)

  abbrev Here : Option Node → Type 0
  Here n = version_of env n ≡ none → C → ⊥

  -- Under the invariant the file can be read.
  readable : (d : Disk) → Before d → Here (d.files r.path)
  readable d u h c = elim (u.undoable i r a).state [ inl e ↦ cc (e) | inr e ↦ cc (e.0) ]

  rename_backup-Leaves :
      (w : World)
      → Fine C K w
      → Before w.disk
      → version_of env (backup_at i w.disk) ≡ some r.original
      → r.original.exists ≡ true
      → Leaves C K (λ _. Undoes env rs start i) Before Before (rename_backup i r.path w)
  unfolding rename_backup
  rename_backup-Leaves w q u b x =
      bind-Ends _ _
        (call-Leaves C K (λ d. Before d × (version_of env (backup_at i d) ≡ some r.original)) Before
          Before w q (u, b) u u)
        (λ _ w' f. ok_then _ _ _ (go (backup_at i w'.disk) w' refl f.0 f.1.0 f.1.1))
    where
      go :
          (n : Option Node) (w : World)
          → backup_at i w.disk ≡ n
          → Fine C K w
          → Before w.disk
          → version_of env (backup_at i w.disk) ≡ some r.original
          → Leaves C K (λ _. Undoes env rs start i) Before Before (rename_backup_from i r.path n w)
      go none w e q u b = absurd (some-absent r.original (ap (version_of env) (sym e) ∙ b) x)
      go (some n) w e q u b =
          on_ok (
            q,
            restored_by-Undoes env rs v start i r a w.disk u n (ap (version_of env) (sym e) ∙ b),
          )

  remove-Leaves :
      (w : World)
      → Fine C K w
      → Before w.disk
      → (state : Version) → IsAt env w.disk r.path state
      → state.exists ≡ true
      → r.original.exists ≡ false
      → Leaves C K (λ _. Undoes env rs start i) Before Before (remove r.path w)
  unfolding remove
  remove-Leaves w q u state b x y =
      bind-Ends _ _
        (call-Leaves C K (λ d. Before d × IsAt env d r.path state) Before Before w q (u, b) u u)
        (λ _ w' f. ok_then _ _ _ (go (w'.disk.files r.path) w' refl f.0 f.1.0 f.1.1))
    where
      go :
          (n : Option Node) (w : World)
          → w.disk.files r.path ≡ n
          → Fine C K w
          → Before w.disk
          → IsAt env w.disk r.path state
          → Leaves C K (λ _. Undoes env rs start i) Before Before (remove_from r.path n w)
      go none w e q u b = absurd (some-absent state (ap (version_of env) (sym e) ∙ b) x)
      go (some n) w e q u b = on_ok (q, removed-Undoes env rs v start i r a w.disk u y)

  some_inj : {x y : Version} → ◌≡◌ {A = Option Version} (some x) (some y) → x ≡ y
  some_inj {x} {y} e = some-injective x y e

  -- Where the file is not the original, it is the candidate, and the original is in the backup.
  replaced :
      (d : Disk) (current : Version)
      → Before d
      → IsAt env d r.path current
      → present_as current r.original ≡ false
      → r.original.exists ≡ true
      → (current ≡ r.candidate) × (version_of env (backup_at i d) ≡ some r.original)
  replaced d current u b t x = elim (u.undoable i r a).state [
    | inl e ↦ cc (t, present_as_refl current r.original x (some_inj (sym b ∙ e)))
    | inr e ↦ (some_inj (sym b ∙ e.0), e.1 x)
  ]

  restore_current-Leaves :
      (current : Version) (w : World)
      → Fine C K w
      → Before w.disk
      → IsAt env w.disk r.path current
      → r.original.exists ≡ true
      → Leaves C K (λ _. Undoes env rs start i) Before Before (restore_current env i r current w)
  restore_current-Leaves current w q u b x =
      if-Ends (present_as current r.original) _ _ w
        (λ t. on_ok (
          q,
          kept-Undoes env rs v start i r a w.disk u
              (b ∙ ap some (present_as→eq current r.original x t)),
        ))
        (λ t.
          if-Ends (is_foreign env i r current) (raise (refused r.path)) (rename_backup i r.path) w
            (λ refuse. absurd (
              false≢true (
                sym (not_refused current r.candidate (replaced w.disk current u b t x).0)
                ∙ refuse)))
            (λ _. rename_backup-Leaves w q u (replaced w.disk current u b t x).1 x))

  -- With no backup left the file must be the original.
  original_without_backup :
      (d : Disk)
      → Before d
      → backup_at i d ≡ none
      → r.original.exists ≡ true
      → IsAt env d r.path r.original
  original_without_backup d u b x = elim (u.undoable i r a).state [
    | inl e ↦ e
    | inr e ↦ absurd (some-absent r.original (ap (version_of env) (sym b) ∙ e.1 x) x)
  ]

  check_restored-Leaves :
      (state : Attempt Version) (w : World)
      → Caught
          (λ v w.
            Fine C K w
            × (((Before w.disk × (backup_at i w.disk ≡ none)) × Before w.disk)
                × IsAt env w.disk r.path v))
          (λ _ w. Failed C K w × (Before w.disk × (backup_at i w.disk ≡ none)))
          state
          w
      → r.original.exists ≡ true
      → Leaves C K (λ _. Undoes env rs start i) Before Before (check_restored env i r state w)
  check_restored-Leaves (failed e) w f x = on_err (f.0, f.1.0)
  check_restored-Leaves (done state) w f x =
      let e = original_without_backup w.disk f.1.0.1 f.1.0.0.1 x in
      if-Ends (present_as state r.original) (pure tt) (raise (unproven r.path)) w
        (λ _. on_ok (f.0, kept-Undoes env rs v start i r a w.disk f.1.0.1 e))
        (λ t. cc (t, present_as_refl state r.original x (some_inj (sym f.1.1 ∙ e))))

  -- A backup that is there is the original.
  backup_original :
      (d : Disk) (backup : Version)
      → Before d
      → Reads env (backup_at i d) (some backup)
      → r.original.exists ≡ true
      → backup ≡ r.original
  backup_original d backup u b x = elim ((u.undoable i r a).backup x) [
    | inl e ↦ absurd (b.1 e)
    | inr e ↦ some_inj (sym b.0 ∙ e)
  ]

  restore_from-Leaves :
      (backup : Option Version) (w : World)
      → Fine C K w
      → Before w.disk
      → Reads env (backup_at i w.disk) backup
      → r.original.exists ≡ true
      → Leaves C K (λ _. Undoes env rs start i) Before Before (restore_from env i r backup w)
  restore_from-Leaves none w q u b x =
      bind-Ends _ _
        (try-Ends _ (
          snapshot-Leaves env C K (λ d. Before d × (backup_at i d ≡ none)) Before r.path w
            (v.clean i r a) q (readable w.disk u) (u, b) u))
        (λ state w' f. check_restored-Leaves state w' f x)
  restore_from-Leaves (some backup) w q u b x =
      if-Ends (present_as backup r.original) (snapshot env r.path >>= restore_current env i r)
        (raise (backup_mismatch r.path)) w
        (λ t.
          bind-Ends _ _
            (snapshot-Leaves env C K Before Before r.path w (v.clean i r a) q (readable w.disk u) u
              u)
            (λ current w' f. restore_current-Leaves current w' f.0 f.1.0.0 f.1.1 x))
        (λ t. cc (t, present_as_refl backup r.original x (backup_original w.disk backup u b x)))

  -- A new file that is there is the candidate.
  retractable :
      (d : Disk) (state : Version)
      → Before d
      → IsAt env d r.path state
      → r.original.exists ≡ false
      → state.exists ≡ true
      → (r.candidate.exists && present_as state r.candidate) ≡ true
  retractable d state u b y x = elim (u.undoable i r a).state [
    | inl e ↦ cc (ap exists_of (some_inj (sym b ∙ e)), y, x)
    | inr e ↦
        let p : state ≡ r.candidate = some_inj (sym b ∙ e.0) in
        let c : r.candidate.exists ≡ true = sym (ap exists_of p) ∙ x in
        and_true r.candidate.exists (present_as state r.candidate) c
          (present_as_refl state r.candidate c p)
  ]
    where
      exists_of : Version → Bool
      exists_of u = u.exists

  -- No file there is the original, also where the candidate deletes it.
  nothing_there :
      (d : Disk) (state : Version)
      → Before d
      → IsAt env d r.path state
      → r.original.exists ≡ false
      → state.exists ≡ false
      → IsAt env d r.path r.original
  nothing_there d state u b y x = elim (u.undoable i r a).state [
    | inl e ↦ e
    | inr e ↦
        let p : state ≡ r.candidate = some_inj (sym b ∙ e.0) in
        let c : r.candidate.exists ≡ false = sym (ap exists_of p) ∙ x in
        e.0 ∙ ap some (v.no_candidate i r a c ∙ sym (v.no_original i r a y))
  ]
    where
      exists_of : Version → Bool
      exists_of u = u.exists

  retract-Leaves :
      (state : Version) (w : World)
      → Fine C K w
      → Before w.disk
      → IsAt env w.disk r.path state
      → r.original.exists ≡ false
      → Leaves C K (λ _. Undoes env rs start i) Before Before (retract env i r state w)
  retract-Leaves state w q u b y =
      if-Ends state.exists
        (if r.candidate.exists && present_as state r.candidate
          then remove r.path
          else raise (changed_new r.path))
        (pure tt) w
        (λ x.
          if-Ends (r.candidate.exists && present_as state r.candidate) (remove r.path)
            (raise (changed_new r.path)) w (λ _. remove-Leaves w q u state b x y)
            (λ t. cc (t, retractable w.disk state u b y x)))
        (λ x.
          on_ok (q, kept-Undoes env rs v start i r a w.disk u (nothing_there w.disk state u b y x)))

  -- The backup that is looked at can be read.
  backup_readable : (d : Disk) → Before d → r.original.exists ≡ true → Here (backup_at i d)
  backup_readable d u x h c = elim ((u.undoable i r a).backup x) [
    | inl e ↦ cc (ap (version_of env) e, h)
    | inr e ↦ cc (e, h)
  ]

  undo-Leaves :
      (w : World)
      → Fine C K w
      → Before w.disk
      → Leaves C K (λ _. Undoes env rs start i) Before Before (undo env i r w)
  undo-Leaves w q u =
      if-Ends r.original.exists (regular_file_version env (backup_at i) >>= restore_from env i r)
        (snapshot env r.path >>= retract env i r) w
        (λ x.
          bind-Ends _ _
            (regular_file_version-Leaves env C K Before Before (backup_at i) w q
              (backup_readable w.disk u x) u u)
            (λ backup w' f. restore_from-Leaves backup w' f.0 f.1.0.0 f.1.1 x))
        (λ y.
          bind-Ends _ _
            (snapshot-Leaves env C K Before Before r.path w (v.clean i r a) q (readable w.disk u) u
              u)
            (λ state w' f. retract-Leaves state w' f.0 f.1.0.0 f.1.1 y))

  pub recover_record-Leaves :
      (w : World)
      → Fine C K w
      → Before w.disk
      → Leaves C K (λ _. Undoes env rs start i) Before Before (recover_record env i r w)
  unfolding recover_record
  recover_record-Leaves w q u =
      bind-Ends _ _
        (ensure_managed_parent-Leaves C K Before Before Before (λ d u. (u, u)) r.path w
          (v.clean i r a) q u)
        (λ _ w' f. undo-Leaves w' f.0 f.1)
