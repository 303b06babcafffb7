-- ===== src/Orchestration/Plan.antt =====
-- cli/orchestration/upgrade.go: the plan of the next upgrade.
pub mod Next
use atum.Base.{
  ℕ, zero, suc, ◌+◌, ◌%◌, ◌^◌, ◌<◌, Bool, true, false, ◌&&◌, ◌||◌, not, Option, none, some, List,
  [], ◌∷◌, ◌++◌, Text, text, str_eq, elem, length, get_elem?, ◌==◌, ltb, leb, if◌then◌else◌,
}
use atum.Ladder.{Asset, GitSource, KubernetesChecksums, ClusterRelease, Semver, target_release}
use atum.Orchestration.{
  UpgradeOrder, install_target, platform_first, kubernetes_first, already_current, other_order,
  ConvergenceMode, apply_convergence, upgrade_convergence, full_convergence, other_mode,
  UpgradePlan, CompatibilityConstraint, Project, FluxRootObservation, is_complete, Result, ok, err,
  Error, ◌>>=◌, ◌>>◌, refuse, or_error, or_panic, not_loaded, empty_ladder, unparsable_next, skips,
  incomplete_constraint, bad_constraint, repeated_constraint, absent_live, unsupported, bad_order,
  bad_mode, other_target, bad_install, bad_current, not_next, not_automatic, needs_cluster,
  needs_platform, changed_live,
}
use atum.Orchestration.Position.{
  LiveReleasePosition, release_index, release_for_kubernetes, live_release_position,
}
use atum.Orchestration.Constraints.{NamedConstraint, is_compatible, parse_platform_constraints}

module _ {V C : Type 0} (lib : Semver V C) where
  -- The test of `upgradePlan` that the ladder skips no minor version; numbers have 64 bits.
  unfoldable pub skips_minor : V → V → Bool
  skips_minor current first =
      not (lib.major first == lib.major current)
      || ltb ((lib.minor current + 1) % 2 ^ 64) (lib.minor first)

  -- The part of `upgradePlan` that takes one step.
  unfoldable pub next_step :
      Project → FluxRootObservation → LiveReleasePosition V → Result UpgradePlan
  unfolding skips_minor is_compatible parse_platform_constraints is_complete
  next_step project root position = do
    next ← or_panic (get_elem? project.releases (position.current_index + 1))
    first ← or_error (unparsable_next next.kubernetes) (lib.new_version next.kubernetes)
    refuse (skips_minor position.current first) skips
    cs ← parse_platform_constraints lib project.constraints
    let order =
        if not (is_complete root) && is_compatible lib cs position.current first
        then platform_first
        else kubernetes_first
    ok (record {
      current = lib.print position.current;
      target = lib.print position.target;
      order = order;
      steps = next ∷ [];
    })

  -- `upgradePlan`
  unfoldable pub upgrade_plan :
      Project → FluxRootObservation → LiveReleasePosition V → Result UpgradePlan
  unfolding next_step
  upgrade_plan project root position =
      if lib.equal position.current position.target
      then ok (record {
        current = lib.print position.current;
        target = lib.print position.target;
        order = already_current;
        steps = [];
      })
      else next_step project root position
