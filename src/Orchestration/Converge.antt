-- ===== src/Orchestration/Converge.antt =====
-- cli/orchestration/upgrade.go: `Plan` and `ConvergePlanned` with their calls of the outside.
pub mod Rules
pub mod Calls
pub mod Steps
pub mod Converged
pub mod Steady
pub mod Orders
pub mod Returns
pub mod Plans
use atum.Base.{
  ℕ, zero, suc, ◌+◌, Bool, true, false, ◌&&◌, ◌||◌, not, Option, none, some, List, [], ◌∷◌, Text,
  text, str_eq, length, get_elem?, ◌==◌, if◌then◌else◌,
}
use atum.Ladder.{ClusterRelease, Semver, target_release}
use atum.Orchestration.{
  UpgradeOrder, install_target, platform_first, already_current, kubernetes_first, other_order,
  ConvergenceMode, apply_convergence, UpgradePlan, Project, Error, not_loaded, empty_ladder,
  cluster_absent, needs_platform, toolchain_count, changed_live, wrong_toolchain, wrong_result,
  changed_inputs, outside, Result, ok, err, panic, or_error, or_panic, refuse,
}
use atum.Orchestration.Position.{live_release_position}
use atum.Orchestration.Plan.{upgrade_plan}
use atum.Orchestration.Admit.{
  validate_plan, validate_cluster_identity, validate_current_target_state,
}
use atum.Orchestration.Prepare.{Toolchain}
use atum.Orchestration.Outside.{
  Outside, Opening, opened, no_kubeconfig, broken_kubeconfig, Run, M, ◌>>=◌, ◌>>◌, lift, pure,
  raise, after, cluster_client, discover_state, big_bang_observation, orchestration_input,
  prepared_toolchains, wait_for_install_connections, run_kubespray, await_healthy,
}

-- The test that a toolchain is that of a step.
unfoldable pub is_toolchain_of : Toolchain → ClusterRelease → Bool
unfolding str_eq
is_toolchain_of t r =
    str_eq t.release.kubernetes r.kubernetes && str_eq t.release.kubespray.commit r.kubespray.commit

module _ {W V C : Type 0} (out : Outside W) (lib : Semver V C) where
  -- `requireOrchestrationInput`
  unfoldable pub require_orchestration_input : Text → M W (Unit {0})
  unfolding orchestration_input str_eq
  require_orchestration_input expected = do
    actual ← orchestration_input out lib
    lift (refuse (not (str_eq actual expected)) changed_inputs)

  -- `convergeExistingKubespray`
  unfoldable pub converge_existing : Toolchain → Text → Text → M W (Unit {0})
  unfolding run_kubespray await_healthy
  converge_existing t playbook kubernetes = do
    run_kubespray out lib t playbook
    await_healthy out lib kubernetes

  -- `convergeCurrentConfiguration`
  unfoldable pub converge_current : ClusterRelease → M W (Unit {0})
  unfolding converge_existing require_orchestration_input orchestration_input prepared_toolchains
      await_healthy
  converge_current target = do
    sha ← orchestration_input out lib
    ts ← prepared_toolchains out lib (target ∷ [])
    lift (refuse (not (length ts == 1)) toolchain_count)
    t ← lift (or_panic (get_elem? ts 0))
    await_healthy out lib target.kubernetes
    converge_existing t (text "cluster.yml") target.kubernetes
    require_orchestration_input sha

  -- Only in the mode of `atum apply` is the configuration applied again.
  unfoldable pub converge_mode : ConvergenceMode → ClusterRelease → M W (Unit {0})
  unfolding converge_current await_healthy
  converge_mode mode target s = elim mode [
    | apply_convergence ↦ converge_current target s
    | _ ↦ await_healthy out lib target.kubernetes s
  ]

  -- `ConvergePlanned` for a cluster at its target. The error of `TargetRelease` is dropped there, and
  -- `ValidatePlan` has excluded it.
  unfoldable pub converge_at_target :
      Project → ClusterRelease → UpgradePlan → ConvergenceMode → M W UpgradePlan
  unfolding converge_mode cluster_client discover_state validate_current_target_state
  converge_at_target project target plan mode = do
    cluster_client out lib
    live ← discover_state out lib
    lift (validate_current_target_state project live target)
    converge_mode mode target
    pure plan

  -- `ConvergePlanned` for a new cluster
  unfoldable pub install_cluster : Project → UpgradePlan → List Toolchain → M W UpgradePlan
  unfolding require_orchestration_input orchestration_input wait_for_install_connections
      run_kubespray cluster_client await_healthy discover_state validate_cluster_identity str_eq
  install_cluster project plan ts = do
    t ← lift (or_panic (get_elem? ts 0))
    sha ← orchestration_input out lib
    wait_for_install_connections out lib t
    run_kubespray out lib t (text "cluster.yml")
    cluster_client out lib
    await_healthy out lib plan.target
    require_orchestration_input sha
    verified ← discover_state out lib
    lift (refuse (not (str_eq verified plan.target)) wrong_result)
    lift (validate_cluster_identity project verified)
    pure plan

  -- One turn of the loop over the steps: the version that is read after it.
  unfoldable pub upgrade_step : Text → ClusterRelease → Toolchain → Text → M W Text
  unfolding is_toolchain_of converge_existing require_orchestration_input await_healthy
      discover_state str_eq
  upgrade_step sha release t live = do
    await_healthy out lib live
    lift (refuse (not (is_toolchain_of t release)) wrong_toolchain)
    converge_existing t (text "upgrade-cluster.yml") release.kubernetes
    require_orchestration_input sha
    next ← discover_state out lib
    lift (refuse (not (str_eq next release.kubernetes)) wrong_result)
    pure next

  unfoldable pub upgrade_steps :
      Text → List Toolchain → ℕ → List ClusterRelease → Text → M W (Unit {0})
  unfolding upgrade_step
  upgrade_steps sha ts i [] live = pure tt
  upgrade_steps sha ts i (r ∷ rs) live = do
    t ← lift (or_panic (get_elem? ts i))
    next ← upgrade_step sha r t live
    upgrade_steps sha ts (suc i) rs next

  -- `ConvergePlanned` for a cluster that is upgraded
  unfoldable pub upgrade : Project → UpgradePlan → List Toolchain → M W UpgradePlan
  unfolding upgrade_steps cluster_client discover_state orchestration_input
      validate_cluster_identity str_eq
  upgrade project plan ts = do
    cluster_client out lib
    live ← discover_state out lib
    lift (refuse (not (str_eq live plan.current)) changed_live)
    lift (validate_cluster_identity project live)
    sha ← orchestration_input out lib
    upgrade_steps sha ts 0 plan.steps live
    pure plan

  -- The branches of `ConvergePlanned` on the order, once toolchains are prepared.
  unfoldable pub converge_prepared :
      UpgradeOrder → Project → UpgradePlan → List Toolchain → M W UpgradePlan
  unfolding install_cluster upgrade
  converge_prepared install_target project plan ts = install_cluster project plan ts
  converge_prepared _ project plan ts = upgrade project plan ts

  unfoldable pub converge_steps : UpgradeOrder → Project → UpgradePlan → M W UpgradePlan
  unfolding converge_prepared prepared_toolchains
  converge_steps order project plan = do
    ts ← prepared_toolchains out lib plan.steps
    lift (refuse (not (length ts == length plan.steps)) toolchain_count)
    converge_prepared order project plan ts

  -- The branches on the order before that.
  unfoldable pub converge_order :
      UpgradeOrder → Project → ClusterRelease → UpgradePlan → ConvergenceMode → M W UpgradePlan
  unfolding converge_at_target converge_steps
  converge_order platform_first project target plan mode = raise needs_platform
  converge_order already_current project target plan mode =
      converge_at_target project target plan mode
  converge_order order project target plan mode = converge_steps order project plan

  -- `ConvergePlanned`. `ValidatePlan` has returned an error if the project is not loaded or its ladder
  -- is empty.
  unfoldable pub converge_planned : Option Project → UpgradePlan → ConvergenceMode → M W UpgradePlan
  unfolding converge_order validate_plan target_release
  converge_planned loaded plan mode = do
    lift (validate_plan loaded plan mode)
    project ← lift (or_error not_loaded loaded)
    target ← lift (or_error empty_ladder (target_release project.releases))
    converge_order plan.order project target plan mode

  -- `Plan`, from the state of a cluster that is there.
  unfoldable pub plan_live : Project → ClusterRelease → M W UpgradePlan
  unfolding discover_state live_release_position big_bang_observation upgrade_plan
  plan_live project target = do
    live ← discover_state out lib
    position ← lift (live_release_position lib project live target)
    root ← big_bang_observation out lib
    lift (upgrade_plan lib project root position)

  -- What `Plan` does with the answer to the opening of the kubeconfig.
  unfoldable pub plan_opened : Project → ClusterRelease → Result (Unit {0}) → M W UpgradePlan
  unfolding plan_live
  plan_opened project target (err cluster_absent) = pure (record {
    current = [];
    target = target.kubernetes;
    order = install_target;
    steps = target ∷ [];
  })
  plan_opened project target (err e) = raise e
  plan_opened project target (ok u) = plan_live project target
  plan_opened project target panic = lift panic

  -- `Plan`
  unfoldable pub plan : Option Project → M W UpgradePlan
  unfolding plan_opened cluster_client target_release
  plan loaded = do
    project ← lift (or_error not_loaded loaded)
    target ← lift (or_error empty_ladder (target_release project.releases))
    λ s. let (answer, s') = cluster_client out lib s in plan_opened project target answer s'
