-- ===== src/Orchestration/Converge/Converged.antt =====
-- What `ConvergePlanned` has done when it returns.
use atum.Base.{
  Bool, true, false, not, some, List, [], ◌∷◌, Text, text, str_eq, str_eq→eq, length, get_elem?,
  ◌≡◌, ◌≢◌, refl, sym, ap, subst, ◌∙◌, arith,
}
use atum.Ladder.{ClusterRelease, Semver}
use atum.Orchestration.{
  ConvergenceMode, apply_convergence, UpgradePlan, Project, panic, changed_live,
}
use atum.Orchestration.Health.{canonical_kubernetes_version}
use atum.Orchestration.Admit.{validate_cluster_identity}
use atum.Orchestration.Prepare.{Toolchain}
use atum.Orchestration.Outside.{
  Outside, Call, read, hashed, connected, waited, played, Run, pure, after, cluster_client,
}
use atum.Orchestration.Converge.{upgrade_steps, upgrade}
use atum.Orchestration.Converge.Rules.{
  IsFine, IsOrderly, Holds, bind, bind-refuse, bind-lift, IsFine-read, IsFine-hashed,
}
use atum.Orchestration.Converge.Calls.{cluster_client_lem, then-Adds, then_hashed, then_read}
use atum.Orchestration.Converge.Steps.{after_playbook, Climbs, Climbed, upgrade_steps_lem}

pub not-false : (b : Bool) → not b ≡ false → b ≡ true
not-false true h = refl
not-false false h = cc

pub identity_safe :
    (project : Project) (live : Text) → validate_cluster_identity project live ≢ panic
unfolding validate_cluster_identity
identity_safe project live = ground arith

module _ {W V C : Type 0} (out : Outside W) (lib : Semver V C) where
  -- A text that the server has reported, read as a version.
  abbrev pub Reads : Text → Text → Type 0
  Reads raw version = canonical_kubernetes_version lib raw ≡ some version

  -- The log of a run that returns, for each order of the plan, the latest first.
  abbrev pub Upgraded : UpgradePlan → List Call → Type 0
  Upgraded plan log =
      (raw : Text) × (sha : Text) × Reads raw plan.current
      × Climbs out lib sha plan.current plan.steps (hashed (some sha) ∷ read (some raw) ∷ []) log

  abbrev pub Installed : UpgradePlan → List Call → Type 0
  Installed plan log =
      (raw : Text) × (sha : Text) × (r : ClusterRelease) × Reads raw plan.target
      × (get_elem? plan.steps 0 ≡ some r)
      × (log
          ≡ read (some raw)
            ∷ hashed (some sha)
            ∷ waited plan.target true
            ∷ played (text "cluster.yml") r.kubernetes true
            ∷ connected true
            ∷ hashed (some sha)
            ∷ [])

  abbrev pub Current : ConvergenceMode → Text → List Call → Type 0
  Current apply_convergence version log =
      (raw : Text) × (sha : Text) × Reads raw version
      × (log
          ≡ hashed (some sha)
            ∷ after_playbook (text "cluster.yml") version version
                (hashed (some sha) ∷ read (some raw) ∷ []))
  Current mode version log =
      (raw : Text) × Reads raw version × (log ≡ waited version true ∷ read (some raw) ∷ [])

  pub upgrade_lem :
      (project : Project) (plan : UpgradePlan) (ts : List Toolchain) (s : Run W)
      → s.log ≡ []
      → length ts ≡ length plan.steps
      → Holds
          (λ plan' s'. (plan' ≡ plan) × IsFine s'.log × Upgraded plan s'.log)
          (upgrade out lib project plan ts s)
  unfolding upgrade
  upgrade_lem project plan ts s at len =
      then-Adds out lib P (cluster_client out lib s) _ (λ l. l) s [] at (tt, tt)
        (cluster_client_lem out lib s)
        (λ s₁ at₁.
          then_read out lib P _ s₁ [] at₁ (tt, tt)
            (λ live raw s₂ reads at₂.
              bind-refuse P (not (str_eq live plan.current)) changed_live s₂ _
                (subst IsOrderly (sym at₂) (tt, tt))
                (λ same.
                  bind-lift P (validate_cluster_identity project live) s₂ _
                    (subst IsOrderly (sym at₂) (tt, tt)) (identity_safe project live)
                    (λ known.
                      then_hashed out lib P _ s₂ (read (some raw) ∷ []) at₂
                        (IsFine-read raw [] (tt, tt))
                        (λ sha s₃ at₃. climb live raw sha s₃ reads at₃ (
                          str_eq→eq live plan.current
                            (not-false (str_eq live plan.current) same)))))))
    where
      P : UpgradePlan → Run W → Type 0
      P plan' s' = (plan' ≡ plan) × IsFine s'.log × Upgraded plan s'.log

      climb :
          (live raw sha : Text) (s₃ : Run W)
          → Reads raw live
          → s₃.log ≡ hashed (some sha) ∷ read (some raw) ∷ []
          → live ≡ plan.current
          → Holds P (after (λ _. pure plan) (upgrade_steps out lib sha ts 0 plan.steps live s₃))
      climb live raw sha s₃ reads at₃ same =
          subst
            (λ v. Holds P (after (λ _. pure plan) (upgrade_steps out lib sha ts 0 plan.steps v s₃)))
            (sym same)
            (bind
              (Climbed out lib sha plan.current plan.steps
                (hashed (some sha) ∷ read (some raw) ∷ []))
              P (upgrade_steps out lib sha ts 0 plan.steps plan.current s₃) _
              (upgrade_steps_lem out lib sha ts 0 plan.steps plan.current
                (hashed (some sha) ∷ read (some raw) ∷ []) s₃ (omega (arith, len)) at₃
                (IsFine-hashed sha (read (some raw) ∷ []) (IsFine-read raw [] (tt, tt))))
              (λ u s₄ climbed. (refl, climbed.0, (raw, sha, reads ∙ ap some same, climbed.1))))
