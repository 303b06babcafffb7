-- ===== src/Orchestration/Admit.antt =====
-- cli/orchestration/upgrade.go and cluster.go: the validation of a plan and of the live version.
pub mod Accepts
use atum.Base.{
  ℕ, zero, suc, ◌+◌, ◌%◌, ◌^◌, ◌<◌, Bool, true, false, ◌&&◌, ◌||◌, not, Option, none, some, List,
  [], ◌∷◌, ◌++◌, Text, text, str_eq, elem, length, get_elem?, ◌==◌, ltb, leb, if◌then◌else◌,
}
use atum.Ladder.{Asset, GitSource, KubernetesChecksums, ClusterRelease, Semver, target_release}
use atum.Orchestration.{
  UpgradeOrder, install_target, platform_first, kubernetes_first, already_current, other_order,
  ConvergenceMode, apply_convergence, upgrade_convergence, full_convergence, other_mode,
  UpgradePlan, CompatibilityConstraint, Project, FluxRootObservation, is_complete, Result, ok, err,
  Error, ◌>>=◌, ◌>>◌, refuse, or_error, or_panic, not_loaded, empty_ladder, unparsable_next, skips,
  incomplete_constraint, bad_constraint, repeated_constraint, absent_live, unsupported, bad_order,
  bad_mode, other_target, bad_install, bad_current, not_next, not_automatic, needs_cluster,
  needs_platform, changed_live,
}
use atum.Orchestration.Position.{
  LiveReleasePosition, release_index, release_for_kubernetes, live_release_position,
}
use atum.Orchestration.Equal.{is_only}

-- The tests of `ValidatePlan` on the steps of a plan of each order.
unfoldable pub validate_steps :
    List ClusterRelease → ClusterRelease → UpgradePlan → Result (Unit {0})
unfolding is_only release_index str_eq
validate_steps releases target plan = elim plan.order [
  | install_target ↦
      refuse (not (str_eq plan.current [] && is_only plan.steps (some target))) bad_install
  | already_current ↦
      refuse (not (str_eq plan.current plan.target && length plan.steps == 0)) bad_current
  | other_order _ ↦ err bad_order
  | _ ↦ do
    i ← or_error (absent_live plan.current) (release_index releases plan.current)
    refuse (not (is_only plan.steps (get_elem? releases (i + 1)))) not_next
]

-- The tests of `ValidatePlan` on the order, the mode and the switch for automatic upgrades.
unfoldable pub requires_kubernetes_upgrade : UpgradePlan → Bool
unfolding str_eq
requires_kubernetes_upgrade plan = elim plan.order [
  | kubernetes_first ↦ true
  | platform_first ↦ not (str_eq plan.current plan.target)
  | _ ↦ false
]

unfoldable pub is_order : UpgradeOrder → UpgradeOrder → Bool
is_order install_target install_target = true
is_order platform_first platform_first = true
is_order kubernetes_first kubernetes_first = true
is_order already_current already_current = true
is_order _ _ = false

unfoldable pub validate_mode : Bool → UpgradePlan → ConvergenceMode → Result (Unit {0})
unfolding requires_kubernetes_upgrade is_order
validate_mode automatic plan mode = do
  elim mode [
    | upgrade_convergence ↦ refuse (is_order plan.order install_target) needs_cluster
    | other_mode _ ↦ err bad_mode
    | _ ↦ refuse (requires_kubernetes_upgrade plan && not automatic) not_automatic
  ]
  refuse
      (is_order plan.order platform_first
        && not (elim mode [ full_convergence ↦ true | _ ↦ false ]))
      needs_platform

abbrev pub is_other_order : UpgradeOrder → Bool
is_other_order (other_order _) = true
is_other_order _ = false

-- `ValidatePlan`; `none` for a project that is not loaded
unfoldable pub validate_plan : Option Project → UpgradePlan → ConvergenceMode → Result (Unit {0})
unfolding target_release validate_steps validate_mode str_eq
validate_plan project plan mode = do
  p ← or_error not_loaded project
  refuse (is_other_order plan.order) bad_order
  target ← or_error empty_ladder (target_release p.releases)
  refuse (not (str_eq plan.target target.kubernetes)) other_target
  validate_steps p.releases target plan
  validate_mode p.automatic_upgrade plan mode

-- `validateClusterIdentity`, given the version of the state
unfoldable pub validate_cluster_identity : Project → Text → Result (Unit {0})
unfolding release_for_kubernetes
validate_cluster_identity project live =
    or_error (absent_live live) (release_for_kubernetes project.releases live) >>= λ _. ok tt

-- `validateCurrentTargetState`
unfoldable pub validate_current_target_state : Project → Text → ClusterRelease → Result (Unit {0})
unfolding validate_cluster_identity str_eq
validate_current_target_state project live target = do
  refuse (not (str_eq live target.kubernetes)) changed_live
  validate_cluster_identity project live
