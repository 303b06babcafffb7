-- ===== src/Update/Journal/Calls.antt =====
-- How the calls on the transaction directory end.
use atum.Base.{Text, Bool, true, false, some, ◌≡◌, has_slash}
use atum.Fssecure.{relative}
use atum.Update.Disk.{Disk, World}
use atum.Update.Journal.{resolved, ensure_managed_parent}
use atum.Update.Ends.{Fine, on_ok, Leaves, bind-Ends, call-Leaves}

module _ (C K : Type 0) (F G H : Disk → Type 0) (pass : (d : Disk) → F d → G d × H d) where
  resolved-Leaves :
      (b : Bool) (w : World) → Fine C K w → F w.disk → Leaves C K (λ _. F) G H (resolved b w)
  resolved-Leaves true w q f = call-Leaves C K F G H w q f (pass w.disk f).0 (pass w.disk f).1
  resolved-Leaves false w q f = on_ok (q, f)

  -- Making the parent of a managed path changes no managed file.
  pub ensure_managed_parent-Leaves :
      (p : Text) (w : World)
      → relative p ≡ some p
      → Fine C K w
      → F w.disk
      → Leaves C K (λ _. F) G H (ensure_managed_parent p w)
  unfolding ensure_managed_parent
  ensure_managed_parent-Leaves p w c q f = rw c (
      bind-Ends _ _ (resolved-Leaves (has_slash p) w q f) (λ _ w' f'.
        bind-Ends _ _
          (call-Leaves C K F G H w' f'.0 f'.1 (pass w'.disk f'.1).0 (pass w'.disk f'.1).1)
          (λ _ w'' f''. on_ok f'')))
