-- ===== src/Orchestration/Converge/Returns.antt =====
-- `ConvergePlanned` of cli/orchestration/upgrade.go: what it has done when it returns, and the order of
-- its calls however it ends.
use atum.Base.{
  not, Option, none, some, List, [], ◌∷◌, Text, str_eq→eq, length, ◌==◌, ◌≡◌, ◌≢◌, refl, sym, ap,
  subst, ◌∙◌, inl, inr, Option-cases, some_injective, arith,
}
use atum.Ladder.{ClusterRelease, Semver, target_release}
use atum.Orchestration.{
  UpgradeOrder, install_target, platform_first, already_current, kubernetes_first, other_order,
  ConvergenceMode, UpgradePlan, Project, ok, panic, toolchain_count, not_loaded, empty_ladder,
}
use atum.Orchestration.Equal.{is_only}
use atum.Orchestration.Admit.{validate_steps, validate_mode, validate_plan}
use atum.Orchestration.Prepare.{Toolchain, Hydrate}
use atum.Orchestration.Prepare.Matches.{IsPrepared}
use atum.Orchestration.Outside.{Outside, Call, Run}
use atum.Orchestration.Converge.{
  converge_at_target, install_cluster, converge_prepared, converge_steps, converge_order,
  converge_planned,
}
use atum.Orchestration.Converge.Steady.{Steady}
use atum.Orchestration.Converge.Rules.{
  IsFine, IsOrderly, Holds, bind-refuse, bind-or_error, bind-lift,
}
use atum.Orchestration.Converge.Calls.{then-Prepared}
use atum.Orchestration.Converge.Converged.{Upgraded, Installed, Current, upgrade_lem}
use atum.Orchestration.Converge.Orders.{install_lem, converge_at_target_lem}

-- What `ValidatePlan` has established of the steps of a plan.
abbrev IsSound : UpgradeOrder → List ClusterRelease → Type 0
IsSound install_target steps = (r : ClusterRelease) × (steps ≡ r ∷ [])
IsSound (other_order _) steps = ⊥
IsSound _ steps = Unit {0}

record IsValid (project : Project) (plan : UpgradePlan) : Type 0 where
  target : ClusterRelease
  is_target : target_release project.releases ≡ some target
  same_target : plan.target ≡ target.kubernetes
  sound : IsSound plan.order plan.steps

steps-IsSound :
    (order : UpgradeOrder) (steps releases : List ClusterRelease) (target : ClusterRelease)
    (current goal : Text)
    → validate_steps releases target
        (record { current = current; target = goal; order = order; steps = steps })
      ≡ ok tt
    → IsSound order steps
unfolding validate_steps is_only
steps-IsSound install_target [] releases target current goal h = absurd (ground (arith, h))
steps-IsSound install_target (r ∷ []) releases target current goal h = (r, refl)
steps-IsSound install_target (r ∷ (s ∷ rest)) releases target current goal h =
    absurd (ground (arith, h))
steps-IsSound platform_first steps releases target current goal h = tt
steps-IsSound kubernetes_first steps releases target current goal h = tt
steps-IsSound already_current steps releases target current goal h = tt
steps-IsSound (other_order o) steps releases target current goal h = absurd (ground (arith, h))

validate_plan-IsValid :
    (loaded : Option Project) (plan : UpgradePlan) (mode : ConvergenceMode)
    → validate_plan loaded plan mode ≡ ok tt
    → (project : Project) × (loaded ≡ some project) × IsValid project plan
unfolding validate_plan
validate_plan-IsValid none plan mode h = absurd (ground (arith, h))
validate_plan-IsValid (some project) plan mode h =
    elim (Option-cases (target_release project.releases)) [
      | inl missing ↦ absurd (ground (arith, h, missing))
      | inr found ↦ (
        project,
        refl,
        record {
          target = found.0;
          is_target = found.1;
          same_target = str_eq→eq plan.target found.0.kubernetes (ground (arith, h, found.1));
          sound =
              steps-IsSound plan.order plan.steps project.releases found.0 plan.current plan.target
                (ground (arith, h, found.1));
        },
      )
    ]

validate_plan_safe :
    (loaded : Option Project) (plan : UpgradePlan) (mode : ConvergenceMode)
    → validate_plan loaded plan mode ≢ panic
unfolding validate_plan validate_steps validate_mode
validate_plan_safe loaded plan mode = ground arith

module _ {W V C : Type 0} (out : Outside W) (lib : Semver V C) where
  -- The log of a run that returns.
  abbrev pub Converged : UpgradePlan → ConvergenceMode → UpgradeOrder → List Call → Type 0
  Converged plan mode kubernetes_first log = Upgraded out lib plan log
  Converged plan mode install_target log = Installed out lib plan log
  Converged plan mode already_current log = Current out lib mode plan.target log
  Converged plan mode _ log = ⊥

  -- What holds after a run that returns.
  abbrev Returned : UpgradePlan → ConvergenceMode → UpgradeOrder → UpgradePlan → Run W → Type 0
  Returned plan mode order plan' s = (plan' ≡ plan) × IsFine s.log × Converged plan mode order s.log

  converge_install_lem :
      (project : Project) (plan : UpgradePlan) (mode : ConvergenceMode) (s : Run W)
      → IsSound install_target plan.steps
      → s.log ≡ []
      → Holds
          (Returned plan mode install_target)
          (converge_steps out lib install_target project plan s)
  unfolding converge_steps converge_prepared
  converge_install_lem project plan mode s (r, one) at =
      then-Prepared out lib P _ plan.steps s [] at (tt, tt)
        (λ ts s₁ at₁ p.
          bind-refuse P (not (length ts == length plan.steps)) toolchain_count s₁ _
            (subst IsOrderly (sym at₁) tt)
            (λ len. first ts s₁ at₁ (p.1.1 0 (omega (arith, ap length one)))))
    where
      P : UpgradePlan → Run W → Type 0
      P = Returned plan mode install_target

      first :
          {hydrate : Hydrate} (ts : List Toolchain) (s₁ : Run W)
          → s₁.log ≡ []
          → IsPrepared hydrate plan.steps 0 ts
          → Holds P (install_cluster out lib project plan ts s₁)
      first ts s₁ at₁ p =
          install_lem out lib project plan ts p.release (record p.toolchain { release = p.release })
            s₁ at₁ p.at p.stored refl

  converge_upgrade_lem :
      (project : Project) (plan : UpgradePlan) (mode : ConvergenceMode) (s : Run W)
      → s.log ≡ []
      → Holds
          (Returned plan mode kubernetes_first)
          (converge_steps out lib kubernetes_first project plan s)
  unfolding converge_steps converge_prepared
  converge_upgrade_lem project plan mode s at =
      then-Prepared out lib P _ plan.steps s [] at (tt, tt)
        (λ ts s₁ at₁ p.
          bind-refuse P (not (length ts == length plan.steps)) toolchain_count s₁ _
            (subst IsOrderly (sym at₁) tt)
            (λ len. upgrade_lem out lib project plan ts s₁ at₁ p.1.0))
    where
      P : UpgradePlan → Run W → Type 0
      P = Returned plan mode kubernetes_first

  converge_order_lem :
      (order : UpgradeOrder) (project : Project) (target : ClusterRelease) (plan : UpgradePlan)
      (mode : ConvergenceMode) (s : Run W)
      → IsSound order plan.steps
      → plan.target ≡ target.kubernetes
      → s.log ≡ []
      → Holds (Returned plan mode order) (converge_order out lib order project target plan mode s)
  unfolding converge_order
  converge_order_lem install_target project target plan mode s sound same at =
      converge_install_lem project plan mode s sound at
  converge_order_lem platform_first project target plan mode s sound same at =
      subst IsOrderly (sym at) tt
  converge_order_lem kubernetes_first project target plan mode s sound same at =
      converge_upgrade_lem project plan mode s at
  converge_order_lem already_current project target plan mode s sound same at =
      subst
        (λ v.
          Holds (λ plan' s'. (plan' ≡ plan) × IsFine s'.log × Current out lib mode v s'.log)
            (converge_at_target out lib project target plan mode s))
        (sym same) (converge_at_target_lem out lib project target plan mode s at)
  converge_order_lem (other_order o) project target plan mode s sound same at = absurd sound

  converge_planned-Holds :
      (loaded : Option Project) (plan : UpgradePlan) (mode : ConvergenceMode) (s : Run W)
      → s.log ≡ []
      → Holds (Returned plan mode plan.order) (converge_planned out lib loaded plan mode s)
  unfolding converge_planned
  converge_planned-Holds loaded plan mode s at =
      bind-lift P (validate_plan loaded plan mode) s _ (subst IsOrderly (sym at) tt)
        (validate_plan_safe loaded plan mode)
        (λ valid.
          bind-or_error P not_loaded loaded s _ (subst IsOrderly (sym at) tt) (λ project found.
            bind-or_error P empty_ladder (target_release project.releases) s _
              (subst IsOrderly (sym at) tt)
              (λ target last.
                go project target found last (validate_plan-IsValid loaded plan mode valid))))
    where
      P : UpgradePlan → Run W → Type 0
      P = Returned plan mode plan.order

      go :
          (project : Project) (target : ClusterRelease)
          → loaded ≡ some project
          → target_release project.releases ≡ some target
          → ((project' : Project) × (loaded ≡ some project') × IsValid project' plan)
          → Holds P (converge_order out lib plan.order project target plan mode s)
      go project target found last (project', found', valid) =
          converge_order_lem plan.order project target plan mode s valid.sound
            (valid.same_target
              ∙ ap (λ (r : ClusterRelease). r.kubernetes)
                  (some_injective valid.target target (
                    sym valid.is_target
                    ∙ ap (λ (q : Project). target_release q.releases)
                        (some_injective project' project (sym found' ∙ found))
                    ∙ last)))
            at

  -- A run of `ConvergePlanned` that returns a plan, with a log that starts empty, returns the one that
  -- it was given, and its log is that of the plan's order. An upgrade has read the planned version
  -- and hashed the inputs, and for each step in turn has found the cluster healthy at the version
  -- before, run the playbook at the version of the step, found it healthy at that version, hashed
  -- the same inputs again and read that version. An installation has reached the machines, run one
  -- playbook at the version of the first step, found the cluster healthy at the target, hashed the
  -- same inputs and read the target. A cluster at its target has been read at the target and found
  -- healthy, and where the configuration is applied a playbook has run between two such waits with
  -- the same inputs before and after. No other order returns.
  pub converge_planned-Converged :
      (loaded : Option Project) (plan plan' : UpgradePlan) (mode : ConvergenceMode) (s s' : Run W)
      → s.log ≡ []
      → converge_planned out lib loaded plan mode s ≡ (ok plan', s')
      → (plan' ≡ plan) × Converged plan mode plan.order s'.log
  converge_planned-Converged loaded plan plan' mode s s' at run =
      let h =
        subst (Holds (Returned plan mode plan.order)) run
          (converge_planned-Holds loaded plan mode s at) in
      (h.0, h.2)
