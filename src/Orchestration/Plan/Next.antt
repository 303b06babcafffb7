-- ===== src/Orchestration/Plan/Next.antt =====
-- What `upgradePlan` plans on an admitted ladder, and that `ValidatePlan` accepts it.
use atum.Base.{
  ℕ, ◌+◌, ◌^◌, ◌<◌, false, ◌&&◌, not, none, some, List, [], ◌∷◌, Text, get_elem?, get_elem?-of_lt,
  if◌then◌else◌, ◌≡◌, refl, sym, ap, ◌∙◌, ◌⊎◌, inl, inr, if_cases, subst, arith,
}
use atum.Ladder.{ClusterRelease, Semver, IsSemver}
use atum.Ladder.Validate.{validate_cluster_releases}
use atum.Ladder.Validate.Admitted.{IsVersionOf, IsNext, Chain, validate_cluster_releases-Chain}
use atum.Ladder.Validate.Sorted.{Chain-IsVersionOf, Chain-IsNext, print_injective}
use atum.Orchestration.{
  UpgradeOrder, platform_first, kubernetes_first, already_current, UpgradePlan, Project,
  FluxRootObservation, is_complete, Result, ok, err, panic,
}
use atum.Orchestration.Position.{LiveReleasePosition, live_release_position}
use atum.Orchestration.Position.Placed.{
  IsPlaced, get_elem?-release_index, live_release_position-IsPlaced, placed_before, placed_at,
}
use atum.Orchestration.Constraints.{
  NamedConstraint, is_compatible, parse_platform_constraints, parse_platform_constraints-ne-panic,
}
use atum.Orchestration.Plan.{skips_minor, next_step, upgrade_plan}

module _ {V C : Type 0} (lib : Semver V C) where
  -- The order of a plan that takes a step.
  abbrev pub step_order : FluxRootObservation → List (NamedConstraint C) → V → V → UpgradeOrder
  step_order root cs current first =
      if not (is_complete root) && is_compatible lib cs current first
      then platform_first
      else kubernetes_first

  -- A plan that takes the next step of the ladder.
  pub record IsStep (project : Project) (root : FluxRootObservation)
      (position : LiveReleasePosition V) (next : ClusterRelease) (first : V)
      (cs : List (NamedConstraint C)) (plan : UpgradePlan) : Type 0 where
    pub follows : get_elem? project.releases (position.current_index + 1) ≡ some next
    pub named : IsVersionOf lib next first
    pub one_step : IsNext lib position.current first
    pub constraints : parse_platform_constraints lib project.constraints ≡ ok cs
    pub planned : plan ≡ record {
      current = lib.print position.current;
      target = lib.print position.target;
      order = step_order root cs position.current first;
      steps = next ∷ [];
    }

  -- A plan for a cluster that is at its target.
  abbrev pub current_plan : V → UpgradePlan
  current_plan v = record {
    current = lib.print v;
    target = lib.print v;
    order = already_current;
    steps = [];
  }

  -- All that a plan can be.
  abbrev pub Planned :
      Project → FluxRootObservation → LiveReleasePosition V → Result UpgradePlan → Type 0
  Planned project root position (ok plan) =
      (plan ≡ current_plan position.target × (position.current ≡ position.target))
      ⊎ ((next : ClusterRelease) × (first : V) × (cs : List (NamedConstraint C)) × IsStep project
            root position next first cs plan)
  Planned project root position (err e) = parse_platform_constraints lib project.constraints ≡ err e
  Planned project root position panic = ⊥

  module _ (laws : IsSemver lib) where
    not-skips_minor :
        (u v : V) → IsNext lib u v → lib.minor u + 1 < 2 ^ 64 → skips_minor lib u v ≡ false
    unfolding skips_minor
    not-skips_minor u v next lt = ground (arith, next.same_major, next.one_minor)

    next_step-Planned :
        (project : Project) (root : FluxRootObservation) (position : LiveReleasePosition V)
        (next : ClusterRelease) (first : V)
        → get_elem? project.releases (position.current_index + 1) ≡ some next
        → lib.new_version next.kubernetes ≡ some first
        → IsVersionOf lib next first
        → IsNext lib position.current first
        → lib.minor position.current + 1 < 2 ^ 64
        → (cs : Result (List (NamedConstraint C)))
        → parse_platform_constraints lib project.constraints ≡ cs
        → Planned project root position (next_step lib project root position)
    unfolding next_step
    next_step-Planned project root position next first at parsed is one lt (ok cs) e =
        rw (at, parsed, not-skips_minor position.current first one lt, e)
          (inr (
            next,
            first,
            cs,
            record { follows = at; named = is; one_step = one; constraints = e; planned = refl },
          ))
    next_step-Planned project root position next first at parsed is one lt (err x) e =
        rw (at, parsed, not-skips_minor position.current first one lt, e) e
    next_step-Planned project root position next first at parsed is one lt panic e =
        absurd (parse_platform_constraints-ne-panic lib project.constraints e)

    -- On a ladder of which `validateClusterReleases` reports nothing, from any position that
    -- `liveReleasePosition` accepts, `upgradePlan` does not panic, and returns an error only if the
    -- platform's constraints cannot be parsed. It plans nothing if the cluster is at its target, and
    -- else exactly the next release, which names a version one step later; the minor number is below
    -- the last of 64 bits.
    pub upgrade_plan-Planned :
        (project : Project) (root : FluxRootObservation) (live : Text) (target : ClusterRelease)
        (position : LiveReleasePosition V)
        → validate_cluster_releases lib project.releases ≡ []
        → live_release_position lib project live target ≡ ok position
        → lib.minor position.current + 1 < 2 ^ 64
        → Planned project root position (upgrade_plan lib project root position)
    unfolding upgrade_plan
    upgrade_plan-Planned project root live target position valid placed lt =
        let chain = (validate_cluster_releases-Chain lib laws project.releases valid).1 in
        let (c, t, (j, is)) =
          live_release_position-IsPlaced lib project live target position placed in
        if_cases (Planned project root position) (lib.equal position.current position.target)
          (λ same.
            let there = placed_at lib laws project.releases position j is chain same in
            inl (
              ap
                  (λ v. record {
                    current = lib.print v;
                    target = lib.print position.target;
                    order = already_current;
                    steps = [];
                  })
                  there,
              there,
            ))
          (λ differ. step chain j is differ)
      where
        step :
            Chain lib none project.releases
            → (j : ℕ) → IsPlaced lib project.releases position j
            → lib.equal position.current position.target ≡ false
            → Planned project root position (next_step lib project root position)
        step chain j is differ =
            let (next, at) =
              get_elem?-of_lt project.releases (position.current_index + 1)
                (placed_before lib laws project.releases position j is chain differ) in
            let (first, named) =
              Chain-IsVersionOf lib none project.releases (position.current_index + 1) next chain
                at in
            let (r, here, of) =
              get_elem?-release_index project.releases (lib.print position.current)
                position.current_index is.at_current in
            let (u, names) =
              Chain-IsVersionOf lib none project.releases position.current_index r chain here in
            next_step-Planned project root position next first at
              (ap lib.new_version (sym named.printed) ∙ laws.parse_print first) named
              (subst (λ x. IsNext lib x first)
                (print_injective lib laws u position.current (names.printed ∙ of))
                (Chain-IsNext lib laws none project.releases position.current_index r next u first
                  chain here (ap (get_elem? project.releases) (omega arith) ∙ at) names named))
              lt (parse_platform_constraints lib project.constraints) refl
