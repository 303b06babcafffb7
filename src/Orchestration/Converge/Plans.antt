-- ===== src/Orchestration/Converge/Plans.antt =====
-- `Plan` of cli/orchestration/upgrade.go makes plans that `ValidatePlan` accepts.
use atum.Base.{
  ℕ, ◌+◌, ◌^◌, ◌<◌, Option, none, some, List, [], ◌∷◌, Text, str_eq_refl, get_elem?, ◌≡◌, refl,
  subst, ◌∙◌,
}
use atum.Ladder.{ClusterRelease, Semver, IsSemver, target_release}
use atum.Ladder.Validate.{validate_cluster_releases}
use atum.Ladder.Validate.Admitted.{IsVersionOf, validate_cluster_releases-Chain}
use atum.Ladder.Validate.Sorted.{Chain-IsVersionOf, print_injective}
use atum.Orchestration.{
  ConvergenceMode, UpgradePlan, install_target, Project, Result, ok, err, panic, Error, or_error,
  empty_ladder, cluster_absent,
}
use atum.Orchestration.Equal.{is_only, deep_equal_refl}
use atum.Orchestration.Position.{LiveReleasePosition, live_release_position}
use atum.Orchestration.Position.Placed.{get_elem?-release_index, live_release_position-IsPlaced}
use atum.Orchestration.Plan.{upgrade_plan}
use atum.Orchestration.Admit.{validate_steps, validate_mode, validate_plan}
use atum.Orchestration.Admit.Accepts.{upgrade_plan-validate_plan}
use atum.Orchestration.Outside.{
  Outside, Run, M, lift, after, cluster_client, discover_state, big_bang_observation,
}
use atum.Orchestration.Converge.{plan, plan_opened, plan_live}

module _ {W : Type 0} where
  -- What holds of a value that is returned.
  abbrev Yields : {A : Type 0} → (A → Type 0) → Result A × Run W → Type 0
  Yields P (ok a, s) = P a
  Yields P (err e, s) = Unit {0}
  Yields P (panic, s) = Unit {0}

  Yields-bind :
      {A B : Type 0} (P : B → Type 0) (x : Result A × Run W) (f : A → M W B)
      → ((a : A) (s : Run W) → x.0 ≡ ok a → Yields P (f a s))
      → Yields P (after f x)
  Yields-bind P (ok a, s) f k = k a s refl
  Yields-bind P (err e, s) f k = tt
  Yields-bind P (panic, s) f k = tt

  Yields-lift :
      {A : Type 0} (P : A → Type 0) (r : Result A) (s : Run W)
      → ((a : A) → r ≡ ok a → P a)
      → Yields P (lift r s)
  Yields-lift P (ok a) s k = k a refl
  Yields-lift P (err e) s k = tt
  Yields-lift P panic s k = tt

install_accepted :
    (project : Project) (target : ClusterRelease) (mode : ConvergenceMode)
    → target_release project.releases ≡ some target
    → let made : UpgradePlan = record {
      current = [];
      target = target.kubernetes;
      order = install_target;
      steps = target ∷ [];
    } in
      validate_plan (some project) made mode ≡ validate_mode project.automatic_upgrade made mode
unfolding validate_plan validate_steps is_only
install_accepted project target mode last =
    rw (last, deep_equal_refl target, str_eq_refl target.kubernetes) refl

or_error-ok :
    {A : Type 0} (e : Error) (o : Option A) (a : A) → or_error {A = A} e o ≡ ok a → o ≡ some a
or_error-ok e none a h = cc
or_error-ok e (some b) a h = cc

module _ {W V C : Type 0} (out : Outside W) (lib : Semver V C) (laws : IsSemver lib) where
  -- The versions on the ladder have minor numbers below the last of 64 bits.
  abbrev pub HasRoom : List ClusterRelease → Type 0
  HasRoom releases =
      (i : ℕ) (r : ClusterRelease) (v : V)
      → get_elem? releases i ≡ some r
      → IsVersionOf lib r v
      → lib.minor v + 1 < 2 ^ 64

  room_at :
      (project : Project) (live : Text) (target : ClusterRelease) (position : LiveReleasePosition V)
      → validate_cluster_releases lib project.releases ≡ []
      → HasRoom project.releases
      → live_release_position lib project live target ≡ ok position
      → lib.minor position.current + 1 < 2 ^ 64
  room_at project live target position valid room placed =
      let (c, t, (j, is)) =
        live_release_position-IsPlaced lib project live target position placed in
      let (r, here, of) =
        get_elem?-release_index project.releases (lib.print position.current) position.current_index
          is.at_current in
      let (v, names) =
        Chain-IsVersionOf lib none project.releases position.current_index r
          (validate_cluster_releases-Chain lib laws project.releases valid).1 here in
      subst (λ w. lib.minor w + 1 < 2 ^ 64)
        (print_injective lib laws v position.current (names.printed ∙ of))
        (room position.current_index r v here names)

  module _ (project : Project) (mode : ConvergenceMode) where
    abbrev Accepted : UpgradePlan → Type 0
    Accepted made =
        validate_plan (some project) made mode ≡ validate_mode project.automatic_upgrade made mode

    plan_live-Accepted :
        (target : ClusterRelease) (s : Run W)
        → validate_cluster_releases lib project.releases ≡ []
        → HasRoom project.releases
        → target_release project.releases ≡ some target
        → Yields Accepted (plan_live out lib project target s)
    unfolding plan_live
    plan_live-Accepted target s valid room last =
        Yields-bind Accepted (discover_state out lib s) _ (λ live s₁ read.
          Yields-bind Accepted (lift (live_release_position lib project live target) s₁) _
            (λ position s₂ placed.
              Yields-bind Accepted (big_bang_observation out lib s₂) _ (λ root s₃ seen.
                Yields-lift Accepted (upgrade_plan lib project root position) s₃ (λ made h.
                  upgrade_plan-validate_plan lib laws project root live target position made mode
                    valid last placed (room_at project live target position valid room placed) h))))

    plan_opened-Accepted :
        (target : ClusterRelease) (answer : Result (Unit {0})) (s : Run W)
        → validate_cluster_releases lib project.releases ≡ []
        → HasRoom project.releases
        → target_release project.releases ≡ some target
        → Yields Accepted (plan_opened out lib project target answer s)
    unfolding plan_opened
    plan_opened-Accepted target (ok u) s valid room last =
        plan_live-Accepted target s valid room last
    plan_opened-Accepted target panic s valid room last = tt
    plan_opened-Accepted target (err cluster_absent) s valid room last =
        install_accepted project target mode last
    plan_opened-Accepted target (err _) s valid room last = tt

    plan-Accepted :
        (s : Run W)
        → validate_cluster_releases lib project.releases ≡ []
        → HasRoom project.releases
        → Yields Accepted (plan out lib (some project) s)
    unfolding plan
    plan-Accepted s valid room =
        Yields-bind Accepted (lift (or_error empty_ladder (target_release project.releases)) s) _
          (λ target s₁ last.
            plan_opened-Accepted target (cluster_client out lib s₁).0 (cluster_client out lib s₁).1
              valid room (or_error-ok empty_ladder (target_release project.releases) target last))

    -- The plan that `Plan` makes, however the cluster answers, passes all tests of `ValidatePlan` on
    -- the project, the target, the order and the steps, in every mode: what is left are its tests on
    -- the mode. `validateClusterReleases` reports nothing of the ladder, and the minor numbers on it
    -- are below the last of 64 bits.
    pub plan-validate_plan :
        (made : UpgradePlan) (s s' : Run W)
        → validate_cluster_releases lib project.releases ≡ []
        → HasRoom project.releases
        → plan out lib (some project) s ≡ (ok made, s')
        → validate_plan (some project) made mode ≡ validate_mode project.automatic_upgrade made mode
    plan-validate_plan made s s' valid room run =
        subst (Yields Accepted) run (plan-Accepted s valid room)
