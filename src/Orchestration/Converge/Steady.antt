-- ===== src/Orchestration/Converge/Steady.antt =====
-- The convergence of cli/orchestration goes on after good answers only.
use atum.Base.{
  ℕ, suc, Bool, true, false, not, Option, none, some, List, [], ◌∷◌, Text, text, str_eq, length,
  get_elem?, ◌==◌, ◌≡◌, ◌≢◌, refl,
}
use atum.Ladder.{ClusterRelease, Semver, target_release}
use atum.Orchestration.{
  UpgradeOrder, install_target, platform_first, already_current, kubernetes_first, other_order,
  ConvergenceMode, apply_convergence, upgrade_convergence, full_convergence, other_mode,
  UpgradePlan, Project, Error, outside, unhealthy, not_stable_release, needs_platform,
  changed_inputs, toolchain_count, wrong_result, wrong_toolchain, changed_live, not_loaded,
  empty_ladder, Result, ok, err, panic, or_error, or_panic, refuse,
}
use atum.Orchestration.Admit.{
  validate_plan, validate_current_target_state, validate_cluster_identity,
}
use atum.Orchestration.Health.{canonical_kubernetes_version, wait_healthy}
use atum.Orchestration.Prepare.{Toolchain, Hydrate, prepare_releases}
use atum.Orchestration.Outside.{
  Outside, Opening, opened, no_kubeconfig, broken_kubeconfig, opening, Call, read, hashed,
  connected, waited, played, Answer, called, kubeconfig, root, hydrated, Run, M, lift, after,
  passes, discovered, cluster_client, discover_state, orchestration_input, prepared_toolchains,
  wait_for_install_connections, run_kubespray, await_healthy,
}
use atum.Orchestration.Converge.{
  is_toolchain_of, require_orchestration_input, converge_existing, converge_current, converge_mode,
  converge_at_target, install_cluster, upgrade_step, upgrade_steps, upgrade, converge_prepared,
  converge_steps, converge_order, converge_planned,
}
use atum.Orchestration.Converge.Rules.{IsGood}

-- An answer after which the code goes on.
abbrev pub IsGoodAnswer : Answer → Type 0
IsGoodAnswer (called c) = IsGood c
IsGoodAnswer (kubeconfig o) = o ≡ opened
IsGoodAnswer (root answer) = answer ≢ none
IsGoodAnswer (hydrated answer releases) =
    (ts : List Toolchain) × (prepare_releases answer releases ≡ ok ts)

abbrev pub AreGood : List Answer → Type 0
AreGood [] = Unit {0}
AreGood (a ∷ trace) = IsGoodAnswer a × AreGood trace

-- Every answer but the latest is good.
abbrev pub IsSteady : List Answer → Type 0
IsSteady [] = Unit {0}
IsSteady (a ∷ trace) = AreGood trace

pub AreGood-IsSteady : (trace : List Answer) → AreGood trace → IsSteady trace
AreGood-IsSteady [] g = tt
AreGood-IsSteady (a ∷ trace) g = g.1

module _ {W V C : Type 0} (out : Outside W) (lib : Semver V C) where
  abbrev pub Answered : {A : Type 0} → Result A × Run W → Type 0
  Answered (ok a, s) = AreGood s.trace
  Answered (err e, s) = IsSteady s.trace
  Answered (panic, s) = IsSteady s.trace

  -- After a value all answers are good, else all but the latest.
  pub record Steady {A : Type 0} (x : Result A × Run W) : Type 0 where
    pub answered : Answered x

  then-Steady :
      {A B : Type 0} (x : Result A × Run W) (f : A → M W B)
      → Steady x
      → ((a : A) (s : Run W) → AreGood s.trace → Steady (f a s))
      → Steady (after f x)
  then-Steady (ok a, s) f h k = k a s h.answered
  then-Steady (err e, s) f h k = record { answered = h.answered }
  then-Steady (panic, s) f h k = record { answered = h.answered }

  lift-Steady : {A : Type 0} (r : Result A) (s : Run W) → AreGood s.trace → Steady (lift r s)
  lift-Steady (ok a) s g = record { answered = g }
  lift-Steady (err e) s g = record { answered = AreGood-IsSteady s.trace g }
  lift-Steady panic s g = record { answered = AreGood-IsSteady s.trace g }

  cluster_client-Steady : (s : Run W) → AreGood s.trace → Steady (cluster_client out lib s)
  unfolding cluster_client
  cluster_client-Steady s g = split (out.open_kubeconfig s.rest)
    where
      split :
          (x : Opening × W)
          → Steady (opening x.0, record s { rest = x.1; trace = kubeconfig x.0 ∷ s.trace })
      split (opened, w) = record { answered = (refl, g) }
      split (no_kubeconfig, w) = record { answered = g }
      split (broken_kubeconfig, w) = record { answered = g }

  discover_state-Steady : (s : Run W) → AreGood s.trace → Steady (discover_state out lib s)
  unfolding discover_state discovered
  discover_state-Steady s g = split (out.server_version s.rest)
    where
      canonical :
          (raw : Text) (w : W) (o : Option Text)
          → Steady (
            or_error not_stable_release o,
            record {
              rest = w;
              log = read (some raw) ∷ s.log;
              trace = called (read (some raw)) ∷ s.trace;
            },
          )
      canonical raw w none = record { answered = g }
      canonical raw w (some live) = record { answered = ((λ h. cc h), g) }

      split :
          (x : Option Text × W)
          → Steady (
            discovered out lib x.0,
            record { rest = x.1; log = read x.0 ∷ s.log; trace = called (read x.0) ∷ s.trace },
          )
      split (none, w) = record { answered = g }
      split (some raw, w) = canonical raw w (canonical_kubernetes_version lib raw)

  orchestration_input-Steady :
      (s : Run W) → AreGood s.trace → Steady (orchestration_input out lib s)
  unfolding orchestration_input
  orchestration_input-Steady s g = split (out.input_sha256 s.rest)
    where
      split :
          (x : Option Text × W)
          → Steady (
            or_error outside x.0,
            record { rest = x.1; log = hashed x.0 ∷ s.log; trace = called (hashed x.0) ∷ s.trace },
          )
      split (none, w) = record { answered = g }
      split (some sha, w) = record { answered = ((λ h. cc h), g) }

  prepared_toolchains-Steady :
      (releases : List ClusterRelease) (s : Run W)
      → AreGood s.trace
      → Steady (prepared_toolchains out lib releases s)
  unfolding prepared_toolchains
  prepared_toolchains-Steady releases s g =
      split (out.hydrate s.rest) (prepare_releases (out.hydrate s.rest).0 releases) refl
    where
      split :
          (x : Hydrate × W) (r : Result (List Toolchain))
          → prepare_releases x.0 releases ≡ r
          → Steady (r, record s { rest = x.1; trace = hydrated x.0 releases ∷ s.trace })
      split (hydrate, w) (ok ts) e = record { answered = ((ts, e), g) }
      split (hydrate, w) (err x) e = record { answered = g }
      split (hydrate, w) panic e = record { answered = g }

  passes-Steady :
      (b : Bool) (e : Error) (s : Run W) (c : Call) (w : W)
      → AreGood s.trace
      → (b ≡ true → IsGood c)
      → Steady (passes b e, record { rest = w; log = c ∷ s.log; trace = called c ∷ s.trace })
  passes-Steady true e s c w g good = record { answered = (good refl, g) }
  passes-Steady false e s c w g good = record { answered = g }

  wait-Steady :
      (t : Toolchain) (s : Run W)
      → AreGood s.trace
      → Steady (wait_for_install_connections out lib t s)
  unfolding wait_for_install_connections
  wait-Steady t s g =
      passes-Steady _ outside s (connected (out.wait_connections t s.rest).0) _ g (λ h. h)

  run_kubespray-Steady :
      (t : Toolchain) (playbook : Text) (s : Run W)
      → AreGood s.trace
      → Steady (run_kubespray out lib t playbook s)
  unfolding run_kubespray
  run_kubespray-Steady t playbook s g =
      passes-Steady _ outside s
        (played playbook t.release.kubernetes (out.play t playbook s.rest).0) _ g (λ h. h)

  await_healthy-Steady :
      (exact : Text) (s : Run W) → AreGood s.trace → Steady (await_healthy out lib exact s)
  unfolding await_healthy
  await_healthy-Steady exact s g =
      passes-Steady _ unhealthy s (waited exact (wait_healthy lib exact (out.polls exact s.rest).0))
        _ g (λ h. h)

  require-Steady :
      (sha : Text) (s : Run W)
      → AreGood s.trace
      → Steady (require_orchestration_input out lib sha s)
  unfolding require_orchestration_input
  require-Steady sha s g =
      then-Steady _ _ (orchestration_input-Steady s g)
        (λ a s1 g1. lift-Steady (refuse (not (str_eq a sha)) changed_inputs) s1 g1)

  existing-Steady :
      (t : Toolchain) (playbook kubernetes : Text) (s : Run W)
      → AreGood s.trace
      → Steady (converge_existing out lib t playbook kubernetes s)
  unfolding converge_existing
  existing-Steady t playbook kubernetes s g =
      then-Steady _ _ (run_kubespray-Steady t playbook s g)
        (λ a s1 g1. await_healthy-Steady kubernetes s1 g1)

  current-Steady :
      (target : ClusterRelease) (s : Run W)
      → AreGood s.trace
      → Steady (converge_current out lib target s)
  unfolding converge_current
  current-Steady target s g = then-Steady _ _ (orchestration_input-Steady s g) (λ sha s1 g1.
      then-Steady _ _ (prepared_toolchains-Steady (target ∷ []) s1 g1) (λ ts s2 g2.
        then-Steady _ _ (lift-Steady (refuse (not (length ts == 1)) toolchain_count) s2 g2)
          (λ _ s3 g3. then-Steady _ _ (lift-Steady (or_panic (get_elem? ts 0)) s3 g3) (λ t s4 g4.
            then-Steady _ _ (await_healthy-Steady target.kubernetes s4 g4) (λ _ s5 g5.
              then-Steady _ _ (existing-Steady t (text "cluster.yml") target.kubernetes s5 g5)
                (λ _ s6 g6. require-Steady sha s6 g6))))))

  mode-Steady :
      (mode : ConvergenceMode) (target : ClusterRelease) (s : Run W)
      → AreGood s.trace
      → Steady (converge_mode out lib mode target s)
  unfolding converge_mode
  mode-Steady apply_convergence target s g = current-Steady target s g
  mode-Steady upgrade_convergence target s g = await_healthy-Steady target.kubernetes s g
  mode-Steady full_convergence target s g = await_healthy-Steady target.kubernetes s g
  mode-Steady (other_mode m) target s g = await_healthy-Steady target.kubernetes s g

  at_target-Steady :
      (project : Project) (target : ClusterRelease) (plan : UpgradePlan) (mode : ConvergenceMode)
      (s : Run W)
      → AreGood s.trace
      → Steady (converge_at_target out lib project target plan mode s)
  unfolding converge_at_target
  at_target-Steady project target plan mode s g =
      then-Steady _ _ (cluster_client-Steady s g) (λ _ s1 g1.
        then-Steady _ _ (discover_state-Steady s1 g1) (λ live s2 g2.
          then-Steady _ _ (lift-Steady (validate_current_target_state project live target) s2 g2)
            (λ _ s3 g3.
              then-Steady _ _ (mode-Steady mode target s3 g3)
                (λ _ s4 g4. lift-Steady (ok plan) s4 g4))))

  install-Steady :
      (project : Project) (plan : UpgradePlan) (ts : List Toolchain) (s : Run W)
      → AreGood s.trace
      → Steady (install_cluster out lib project plan ts s)
  unfolding install_cluster
  install-Steady project plan ts s g =
      then-Steady _ _ (lift-Steady (or_panic (get_elem? ts 0)) s g) (λ t s1 g1.
        then-Steady _ _ (orchestration_input-Steady s1 g1) (λ sha s2 g2.
          then-Steady _ _ (wait-Steady t s2 g2) (λ _ s3 g3.
            then-Steady _ _ (run_kubespray-Steady t (text "cluster.yml") s3 g3) (λ _ s4 g4.
              then-Steady _ _ (cluster_client-Steady s4 g4) (λ _ s5 g5.
                then-Steady _ _ (await_healthy-Steady plan.target s5 g5) (λ _ s6 g6.
                  then-Steady _ _ (require-Steady sha s6 g6) (λ _ s7 g7.
                    then-Steady _ _ (discover_state-Steady s7 g7) (λ live s8 g8.
                      then-Steady _ _
                        (lift-Steady (refuse (not (str_eq live plan.target)) wrong_result) s8 g8)
                        (λ _ s9 g9.
                          then-Steady _ _
                            (lift-Steady (validate_cluster_identity project live) s9 g9)
                            (λ _ s10 g10. lift-Steady (ok plan) s10 g10))))))))))

  step-Steady :
      (sha : Text) (release : ClusterRelease) (t : Toolchain) (live : Text) (s : Run W)
      → AreGood s.trace
      → Steady (upgrade_step out lib sha release t live s)
  unfolding upgrade_step
  step-Steady sha release t live s g = then-Steady _ _ (await_healthy-Steady live s g) (λ _ s1 g1.
      then-Steady _ _ (lift-Steady (refuse (not (is_toolchain_of t release)) wrong_toolchain) s1 g1)
        (λ _ s2 g2.
          then-Steady _ _ (existing-Steady t (text "upgrade-cluster.yml") release.kubernetes s2 g2)
            (λ _ s3 g3. then-Steady _ _ (require-Steady sha s3 g3) (λ _ s4 g4.
              then-Steady _ _ (discover_state-Steady s4 g4) (λ next s5 g5.
                then-Steady _ _
                  (lift-Steady (refuse (not (str_eq next release.kubernetes)) wrong_result) s5 g5)
                  (λ _ s6 g6. lift-Steady (ok next) s6 g6))))))

  steps-Steady :
      (sha : Text) (ts : List Toolchain) (i : ℕ) (rs : List ClusterRelease) (live : Text)
      (s : Run W)
      → AreGood s.trace
      → Steady (upgrade_steps out lib sha ts i rs live s)
  unfolding upgrade_steps
  steps-Steady sha ts i [] live s g = lift-Steady (ok tt) s g
  steps-Steady sha ts i (r ∷ rs) live s g =
      then-Steady _ _ (lift-Steady (or_panic (get_elem? ts i)) s g) (λ t s1 g1.
        then-Steady _ _ (step-Steady sha r t live s1 g1)
          (λ next s2 g2. steps-Steady sha ts (suc i) rs next s2 g2))

  upgrade-Steady :
      (project : Project) (plan : UpgradePlan) (ts : List Toolchain) (s : Run W)
      → AreGood s.trace
      → Steady (upgrade out lib project plan ts s)
  unfolding upgrade
  upgrade-Steady project plan ts s g = then-Steady _ _ (cluster_client-Steady s g) (λ _ s1 g1.
      then-Steady _ _ (discover_state-Steady s1 g1) (λ live s2 g2.
        then-Steady _ _ (lift-Steady (refuse (not (str_eq live plan.current)) changed_live) s2 g2)
          (λ _ s3 g3.
            then-Steady _ _ (lift-Steady (validate_cluster_identity project live) s3 g3) (λ _ s4 g4.
              then-Steady _ _ (orchestration_input-Steady s4 g4) (λ sha s5 g5.
                then-Steady _ _ (steps-Steady sha ts 0 plan.steps live s5 g5)
                  (λ _ s6 g6. lift-Steady (ok plan) s6 g6))))))

  prepared-Steady :
      (order : UpgradeOrder) (project : Project) (plan : UpgradePlan) (ts : List Toolchain)
      (s : Run W)
      → AreGood s.trace
      → Steady (converge_prepared out lib order project plan ts s)
  unfolding converge_prepared
  prepared-Steady install_target project plan ts s g = install-Steady project plan ts s g
  prepared-Steady platform_first project plan ts s g = upgrade-Steady project plan ts s g
  prepared-Steady already_current project plan ts s g = upgrade-Steady project plan ts s g
  prepared-Steady kubernetes_first project plan ts s g = upgrade-Steady project plan ts s g
  prepared-Steady (other_order o) project plan ts s g = upgrade-Steady project plan ts s g

  converge_steps-Steady :
      (order : UpgradeOrder) (project : Project) (plan : UpgradePlan) (s : Run W)
      → AreGood s.trace
      → Steady (converge_steps out lib order project plan s)
  unfolding converge_steps
  converge_steps-Steady order project plan s g =
      then-Steady _ _ (prepared_toolchains-Steady plan.steps s g) (λ ts s1 g1.
        then-Steady _ _
          (lift-Steady (refuse (not (length ts == length plan.steps)) toolchain_count) s1 g1)
          (λ _ s2 g2. prepared-Steady order project plan ts s2 g2))

  converge_order-Steady :
      (order : UpgradeOrder) (project : Project) (target : ClusterRelease) (plan : UpgradePlan)
      (mode : ConvergenceMode) (s : Run W)
      → AreGood s.trace
      → Steady (converge_order out lib order project target plan mode s)
  unfolding converge_order
  converge_order-Steady install_target project target plan mode s g =
      converge_steps-Steady install_target project plan s g
  converge_order-Steady platform_first project target plan mode s g =
      lift-Steady (err needs_platform) s g
  converge_order-Steady already_current project target plan mode s g =
      at_target-Steady project target plan mode s g
  converge_order-Steady kubernetes_first project target plan mode s g =
      converge_steps-Steady kubernetes_first project plan s g
  converge_order-Steady (other_order o) project target plan mode s g =
      converge_steps-Steady (other_order o) project plan s g

  pub converge_planned-Steady :
      (loaded : Option Project) (plan : UpgradePlan) (mode : ConvergenceMode) (s : Run W)
      → AreGood s.trace
      → Steady (converge_planned out lib loaded plan mode s)
  unfolding converge_planned
  converge_planned-Steady loaded plan mode s g =
      then-Steady _ _ (lift-Steady (validate_plan loaded plan mode) s g) (λ _ s1 g1.
        then-Steady _ _ (lift-Steady (or_error not_loaded loaded) s1 g1) (λ project s2 g2.
          then-Steady _ _
            (lift-Steady (or_error empty_ladder (target_release project.releases)) s2 g2)
            (λ target s3 g3. converge_order-Steady plan.order project target plan mode s3 g3)))
