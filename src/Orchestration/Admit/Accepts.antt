-- ===== src/Orchestration/Admit/Accepts.antt =====
-- `ValidatePlan` of cli/orchestration/upgrade.go accepts what `Plan` plans.
use atum.Base.{
  ℕ, ◌+◌, ◌^◌, ◌<◌, Bool, true, false, ◌&&◌, not, none, some, [], ◌∷◌, Text, str_eq_refl, get_elem?,
  if◌then◌else◌, ◌≡◌, refl, ap, subst, ◌∙◌, inl, inr,
}
use atum.Ladder.{ClusterRelease, Semver, IsSemver, target_release}
use atum.Ladder.Validate.{validate_cluster_releases}
use atum.Ladder.Validate.Admitted.{validate_cluster_releases-Chain}
use atum.Ladder.Validate.Sorted.{
  get_elem?-target_release, Chain-IsVersionOf, new_version-IsVersionOf,
}
use atum.Orchestration.{
  ConvergenceMode, UpgradePlan, Project, FluxRootObservation, is_complete, ok, platform_first,
  kubernetes_first,
}
use atum.Orchestration.Equal.{is_only, deep_equal_refl}
use atum.Orchestration.Position.{release_index, LiveReleasePosition, live_release_position}
use atum.Orchestration.Position.Placed.{live_release_position-IsPlaced}
use atum.Orchestration.Constraints.{is_compatible}
use atum.Orchestration.Plan.{upgrade_plan}
use atum.Orchestration.Plan.Next.{Planned, current_plan, upgrade_plan-Planned}
use atum.Orchestration.Admit.{validate_steps, validate_mode, validate_plan}

module _ {V C : Type 0} (lib : Semver V C) where
  -- A step of either order passes the tests on the steps.
  step_accepted :
      (b : Bool) (project : Project) (target : ClusterRelease) (current goal : Text) (i : ℕ)
      (next : ClusterRelease) (mode : ConvergenceMode)
      → release_index project.releases current ≡ some i
      → get_elem? project.releases (i + 1) ≡ some next
      → target_release project.releases ≡ some target
      → goal ≡ target.kubernetes
      → let plan : UpgradePlan = record {
        current = current;
        target = goal;
        order = if b then platform_first else kubernetes_first;
        steps = next ∷ [];
      } in
        validate_plan (some project) plan mode ≡ validate_mode project.automatic_upgrade plan mode
  unfolding validate_plan validate_steps is_only
  step_accepted true project target current goal i next mode at there last same =
      rw (last, same, str_eq_refl target.kubernetes, at, there, deep_equal_refl next) refl
  step_accepted false project target current goal i next mode at there last same =
      rw (last, same, str_eq_refl target.kubernetes, at, there, deep_equal_refl next) refl

  current_accepted :
      (project : Project) (target : ClusterRelease) (v : V) (mode : ConvergenceMode)
      → target_release project.releases ≡ some target
      → lib.print v ≡ target.kubernetes
      → validate_plan (some project) (current_plan lib v) mode
        ≡ validate_mode project.automatic_upgrade (current_plan lib v) mode
  unfolding validate_plan validate_steps
  current_accepted project target v mode last same =
      rw (last, same, str_eq_refl target.kubernetes) refl

  module _ (laws : IsSemver lib) where
    -- The plan that `upgradePlan` makes for an admitted ladder and its target, from a position that
    -- `liveReleasePosition` accepts, passes all tests of `ValidatePlan` on the target, the order and
    -- the steps, in every mode: what is left are its tests on the mode. The minor number is below the
    -- last of 64 bits.
    pub upgrade_plan-validate_plan :
        (project : Project) (root : FluxRootObservation) (live : Text) (target : ClusterRelease)
        (position : LiveReleasePosition V) (plan : UpgradePlan) (mode : ConvergenceMode)
        → validate_cluster_releases lib project.releases ≡ []
        → target_release project.releases ≡ some target
        → live_release_position lib project live target ≡ ok position
        → lib.minor position.current + 1 < 2 ^ 64
        → upgrade_plan lib project root position ≡ ok plan
        → validate_plan (some project) plan mode ≡ validate_mode project.automatic_upgrade plan mode
    upgrade_plan-validate_plan project root live target position plan mode valid last placed lt h =
        accepted
          (subst (Planned lib project root position) h
            (upgrade_plan-Planned lib laws project root live target position valid placed lt))
          printed
      where
        printed : lib.print position.target ≡ target.kubernetes
        printed =
            let (i, at, end) = get_elem?-target_release project.releases target last in
            let (v, is) =
              Chain-IsVersionOf lib none project.releases i target
                (validate_cluster_releases-Chain lib laws project.releases valid).1 at in
            let (c, t, rest) =
              live_release_position-IsPlaced lib project live target position placed in
            ap lib.print (new_version-IsVersionOf lib laws target position.target v is t)
            ∙ is.printed

        accepted :
            Planned lib project root position (ok plan)
            → lib.print position.target ≡ target.kubernetes
            → validate_plan (some project) plan mode
              ≡ validate_mode project.automatic_upgrade plan mode
        accepted (inl (e, same)) printed =
            rw e (current_accepted project target position.target mode last printed)
        accepted (inr (next, first, cs, step)) printed =
            let (c, t, (j, is)) =
              live_release_position-IsPlaced lib project live target position placed in
            rw step.planned (
              step_accepted (not (is_complete root) && is_compatible lib cs position.current first)
                project target (lib.print position.current) (lib.print position.target)
                position.current_index next mode is.at_current step.follows last printed)
