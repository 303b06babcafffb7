-- ===== src/Update/Recover/Undo.antt =====
-- Rolling back: every turn of the loop keeps the invariant, and one that succeeds moves its mark.
pub mod Versions
pub mod Turn
use atum.Base.{
  ℕ, zero, suc, ◌≤◌, Bool, true, false, ◌&&◌, not, Option, none, some, List, [], ◌∷◌, Text, length,
  get_elem?, get_elem?-of_lt, ◌≡◌, refl, sym, ◌∙◌, ap, inl, inr, arith, str_eq_iff, if◌then◌else◌,
}
use mathlib.Core.Bool.{false≢true}
use mathlib.Core.Option.{some-injective}
use atum.Update.Disk.{
  Node, Version, absent, Record, Disk, World, raise, pure, call, ◌>>=◌, Attempt, done, failed,
  refused, backup_mismatch, unproven, changed_new,
}
use atum.Update.Version.{Env, version_of, present_as, snapshot, regular_file_version}
use atum.Update.Version.Calls.{IsAt, Reads, snapshot-Leaves, regular_file_version-Leaves}
use atum.Update.Journal.{backup_at, mem_path}
use atum.Update.Journal.Calls.{ensure_managed_parent-Leaves}
use atum.Update.Ends.{
  on_ok, on_err, Failed, Fine, Leaves, Caught, bind-Ends, try-Ends, ok_then, if-Ends, call-Leaves,
  weaken-Ends,
}
use atum.Update.Recover.{
  rename_backup, rename_backup_from, remove, remove_from, is_foreign, restore_current,
  check_restored, restore_from, retract, undo, recover_record, recover_at, recover_loop,
  sync_parents, recover_prepared, parent,
}
use atum.Update.Recover.Undoable.{
  At, AreValid, Undoes, forget, restored_by-Undoes, removed-Undoes, kept-Undoes,
}
use atum.Update.Recover.Undo.Turn.{recover_record-Leaves}

module _ (env : Env) (C K : Type 0) (rs : List Record) (v : AreValid rs) (start : Disk) where
  -- The mark at which nothing is said to be undone.
  abbrev pub Undoing : Disk → Type 0
  Undoing = Undoes env rs start (length rs)

  recover_loop-Leaves :
      (k : ℕ) (w : World)
      → k ≤ length rs
      → Fine C K w
      → Undoes env rs start k w.disk
      → Leaves C K (λ _. Undoes env rs start 0) Undoing Undoing (recover_loop env rs k w)
  unfolding recover_loop
  recover_loop-Leaves zero w h q u = on_ok (q, u)
  recover_loop-Leaves (suc i) w h q u =
      bind-Ends _ _ turn (λ _ w' f. recover_loop-Leaves i w' (omega arith) f.0 f.1)
    where
      turn :
          Leaves C K
            (λ _. Undoes env rs start i)
            Undoing
            Undoing
            (recover_at env i (get_elem? rs i) w)
      turn =
          let (r, a) = get_elem?-of_lt rs i h in
          rw a (
            weaken-Ends _ (recover_record-Leaves env C K rs v start i r a w q u) (λ _ _ f. f)
              (λ _ w f. (f.0, forget env (suc i) (length rs) h f.1))
              (λ w f. (f.0, forget env (suc i) (length rs) h f.1)))

  sync_parents-Leaves :
      (seen : List Text) (l : List Record) (w : World)
      → Fine C K w
      → Undoes env rs start 0 w.disk
      → Leaves C K (λ _. Undoes env rs start 0) Undoing Undoing (sync_parents seen l w)
  unfolding sync_parents
  sync_parents-Leaves seen [] w q u = on_ok (q, u)
  sync_parents-Leaves seen (r ∷ l) w q u =
      bind-Ends _ _
        (if-Ends (mem_path (parent r.path) seen) (pure tt) call w (λ _. on_ok (q, u))
          (λ _.
            call-Leaves C K (Undoes env rs start 0) Undoing Undoing w q u
              (forget env 0 (length rs) (omega arith) u)
              (forget env 0 (length rs) (omega arith) u)))
        (λ _ w' f. sync_parents-Leaves (parent r.path ∷ seen) l w' f.0 f.1)

  -- Rolling back ends with every record undone, or with the invariant as it was.
  pub recover_prepared-Leaves :
      (w : World)
      → Fine C K w
      → Undoing w.disk
      → Leaves C K (λ _. Undoes env rs start 0) Undoing Undoing (recover_prepared env rs w)
  unfolding recover_prepared
  recover_prepared-Leaves w q u =
      bind-Ends _ _ (recover_loop-Leaves (length rs) w (omega arith) q u)
        (λ _ w' f. sync_parents-Leaves [] rs w' f.0 f.1)
