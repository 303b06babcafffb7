-- ===== src/Orchestration/Converge/Orders.antt =====
-- The trace of `ConvergePlanned` for a new cluster, and for one that is at its target.
use atum.Base.{
  true, not, some, List, [], ◌∷◌, Text, text, str_eq, str_eq→eq, length, get_elem?, ◌==◌, ◌≡◌, ◌≢◌,
  refl, sym, ap, subst, ◌∙◌, some_injective, arith,
}
use atum.Ladder.{ClusterRelease, Semver}
use atum.Orchestration.{
  ConvergenceMode, apply_convergence, upgrade_convergence, full_convergence, other_mode,
  UpgradePlan, Project, ok, panic, toolchain_count, wrong_result, or_panic, refuse,
}
use atum.Orchestration.Admit.{validate_cluster_identity, validate_current_target_state}
use atum.Orchestration.Prepare.{Toolchain, Hydrate}
use atum.Orchestration.Prepare.Matches.{IsPrepared}
use atum.Orchestration.Outside.{
  Outside, Call, read, hashed, connected, waited, played, Run, ◌>>◌, lift, pure, after,
  cluster_client, wait_for_install_connections, run_kubespray, await_healthy,
}
use atum.Orchestration.Converge.{
  require_orchestration_input, converge_existing, converge_current, converge_mode,
  converge_at_target, install_cluster,
}
use atum.Orchestration.Converge.Rules.{
  IsFine, IsOrderly, IsGate, Holds, bind, weaken, bind-refuse, bind-or_panic, bind-lift, at_log,
  IsFine-read, IsFine-hashed,
}
use atum.Orchestration.Converge.Calls.{
  Adds, cluster_client_lem, require_orchestration_input_lem, wait_for_install_connections_lem,
  run_kubespray_lem, await_healthy_lem, then-Adds, then_hashed, then-Prepared, then_read,
}
use atum.Orchestration.Converge.Steps.{after_playbook, converge_existing_lem}
use atum.Orchestration.Converge.Converged.{not-false, identity_safe, Reads, Installed, Current}

target_safe :
    (project : Project) (live : Text) (target : ClusterRelease)
    → validate_current_target_state project live target ≢ panic
unfolding validate_current_target_state validate_cluster_identity
target_safe project live target = ground arith

live_target :
    (project : Project) (live : Text) (target : ClusterRelease)
    → validate_current_target_state project live target ≡ ok tt
    → live ≡ target.kubernetes
unfolding validate_current_target_state
live_target project live target h = str_eq→eq live target.kubernetes (ground (arith, h))

module _ {W V C : Type 0} (out : Outside W) (lib : Semver V C) where
  pub install_lem :
      (project : Project) (plan : UpgradePlan) (ts : List Toolchain) (r : ClusterRelease)
      (t : Toolchain) (s : Run W)
      → s.log ≡ []
      → get_elem? plan.steps 0 ≡ some r
      → get_elem? ts 0 ≡ some t
      → t.release ≡ r
      → Holds
          (λ plan' s'. (plan' ≡ plan) × IsFine s'.log × Installed out lib plan s'.log)
          (install_cluster out lib project plan ts s)
  unfolding install_cluster
  install_lem project plan ts r t s at step there same =
      bind-or_panic P (get_elem? ts 0) t s _ there (
        then_hashed out lib P _ s [] at (tt, tt)
          (λ sha s₁ at₁.
            then-Adds out lib P (wait_for_install_connections out lib t s₁) _
              (λ l. connected true ∷ l) s₁ (hashed (some sha) ∷ []) at₁
              (IsFine-hashed sha [] (tt, tt)) (wait_for_install_connections_lem out lib t s₁)
              (λ s₂ at₂.
                bind (Adds out lib (ran sha)) P (run_kubespray out lib t (text "cluster.yml") s₂) _
                  (played_lem sha s₂ at₂)
                  (λ u s₃ at₃.
                    then-Adds out lib P (cluster_client out lib s₃) _ (λ l. l) s₃ (ran sha) at₃
                      (fine_ran sha) (cluster_client_lem out lib s₃)
                      (λ s₄ at₄.
                        then-Adds out lib P (await_healthy out lib plan.target s₄) _
                          (λ l. waited plan.target true ∷ l) s₄ (ran sha) at₄ (fine_ran sha)
                          (await_healthy_lem out lib plan.target s₄)
                          (λ s₅ at₅.
                            then-Adds out lib P (require_orchestration_input out lib sha s₅) _
                              (λ l. hashed (some sha) ∷ l) s₅ (waited plan.target true ∷ ran sha)
                              at₅ (refl, fine_ran sha)
                              (require_orchestration_input_lem out lib sha s₅)
                              (λ s₆ at₆.
                                then_read out lib P _ s₆
                                  (hashed (some sha) ∷ waited plan.target true ∷ ran sha) at₆
                                  ((λ h. cc h), (refl, fine_ran sha))
                                  (λ live raw s₇ reads at₇.
                                    checked sha live raw s₇ reads at₇))))))))
    where
      P : UpgradePlan → Run W → Type 0
      P plan' s' = (plan' ≡ plan) × IsFine s'.log × Installed out lib plan s'.log

      ran : Text → List Call
      ran sha =
          played (text "cluster.yml") r.kubernetes true ∷ connected true ∷ hashed (some sha) ∷ []

      fine_ran : (sha : Text) → IsFine (ran sha)
      fine_ran sha = (refl, (refl, ((λ h. cc h), (tt, tt))))

      played_lem :
          (sha : Text) (s₂ : Run W)
          → s₂.log ≡ connected true ∷ hashed (some sha) ∷ []
          → Holds
              (Adds out lib {A = Unit {0}} (ran sha))
              (run_kubespray out lib t (text "cluster.yml") s₂)
      played_lem sha s₂ at₂ =
          subst
            (λ (x : ClusterRelease).
              Holds
                (Adds out lib {A = Unit {0}}
                  (played (text "cluster.yml") x.kubernetes true ∷ before))
                (run_kubespray out lib t (text "cluster.yml") s₂))
            same
            (subst
              (λ l.
                IsGate l
                → IsOrderly l
                → Holds
                    (Adds out lib {A = Unit {0}}
                      (played (text "cluster.yml") t.release.kubernetes true ∷ l))
                    (run_kubespray out lib t (text "cluster.yml") s₂))
              at₂ (run_kubespray_lem out lib t (text "cluster.yml") s₂) refl
              ((λ h. cc h), (tt, tt)))
        where
          before : List Call
          before = connected true ∷ hashed (some sha) ∷ []

      checked :
          (sha live raw : Text) (s₇ : Run W)
          → Reads out lib raw live
          → s₇.log ≡ read (some raw) ∷ hashed (some sha) ∷ waited plan.target true ∷ ran sha
          → Holds P (
              after
                (λ _ s. after (λ _. pure plan) (lift (validate_cluster_identity project live) s))
                (lift (refuse (not (str_eq live plan.target)) wrong_result) s₇))
      checked sha live raw s₇ reads at₇ =
          bind-refuse P (not (str_eq live plan.target)) wrong_result s₇ _
            (subst IsOrderly (sym at₇) ((λ h. cc h), (refl, fine_ran sha)))
            (λ good.
              bind-lift P (validate_cluster_identity project live) s₇ _
                (subst IsOrderly (sym at₇) ((λ h. cc h), (refl, fine_ran sha)))
                (identity_safe project live)
                (λ known. (
                  refl,
                  subst IsFine (sym at₇) ((λ h. cc h), ((λ h. cc h), (refl, fine_ran sha))),
                  (
                    raw,
                    sha,
                    r,
                    reads
                        ∙ ap some
                            (str_eq→eq live plan.target (not-false (str_eq live plan.target) good)),
                    step,
                    at₇,
                  ),
                )))

  IsFine-current :
      (version raw sha : Text)
      → IsFine (
          hashed (some sha)
          ∷ after_playbook
              (text "cluster.yml")
              version
              version
              (hashed (some sha) ∷ read (some raw) ∷ []))
  IsFine-current version raw sha =
      ((λ h. cc h), (refl, (refl, (refl, ((λ h. cc h), ((λ h. cc h), (tt, tt)))))))

  converge_current_lem :
      (target : ClusterRelease) (raw : Text) (s : Run W)
      → s.log ≡ read (some raw) ∷ []
      → Holds
          (λ (u : Unit {0}) s'.
            (sha : Text) × (s'.log
              ≡ hashed (some sha)
                ∷ after_playbook
                    (text "cluster.yml")
                    target.kubernetes
                    target.kubernetes
                    (hashed (some sha) ∷ read (some raw) ∷ [])))
          (converge_current out lib target s)
  unfolding converge_current
  converge_current_lem target raw s at =
      then_hashed out lib P _ s (read (some raw) ∷ []) at (IsFine-read raw [] (tt, tt))
        (λ sha s₁ at₁.
          then-Prepared out lib P _ (target ∷ []) s₁ (start sha) at₁ (fine_start sha)
            (λ ts s₂ at₂ p.
              bind-refuse P (not (length ts == 1)) toolchain_count s₂ _
                (subst IsOrderly (sym at₂) (fine_start sha).1)
                (λ one. with_toolchain sha ts s₂ at₂ (p.1.1 0 (omega arith)))))
    where
      P : Unit {0} → Run W → Type 0
      P u s' =
          (sha : Text) × (s'.log
            ≡ hashed (some sha)
              ∷ after_playbook (text "cluster.yml") target.kubernetes target.kubernetes
                  (hashed (some sha) ∷ read (some raw) ∷ []))

      start : Text → List Call
      start sha = hashed (some sha) ∷ read (some raw) ∷ []

      fine_start : (sha : Text) → IsFine (start sha)
      fine_start sha = ((λ h. cc h), ((λ h. cc h), (tt, tt)))

      with_toolchain :
          {hydrate : Hydrate} (sha : Text) (ts : List Toolchain) (s₂ : Run W)
          → s₂.log ≡ start sha
          → IsPrepared hydrate (target ∷ []) 0 ts
          → Holds P (
              after
                (λ t.
                  await_healthy out lib target.kubernetes
                  >> (converge_existing out lib t (text "cluster.yml") target.kubernetes
                      >> require_orchestration_input out lib sha))
                (lift (or_panic (get_elem? ts 0)) s₂))
      with_toolchain sha ts s₂ at₂ p =
          bind-or_panic P (get_elem? ts 0) (record p.toolchain { release = p.release }) s₂ _
            p.stored
            (then-Adds out lib P (await_healthy out lib target.kubernetes s₂) _
              (λ l. waited target.kubernetes true ∷ l) s₂ (start sha) at₂ (fine_start sha)
              (await_healthy_lem out lib target.kubernetes s₂)
              (λ s₃ at₃.
                bind
                  (Adds out lib (
                    after_playbook (text "cluster.yml") target.kubernetes target.kubernetes
                      (start sha)))
                  P
                  (converge_existing out lib (record p.toolchain { release = p.release })
                    (text "cluster.yml") target.kubernetes s₃)
                  _
                  (converge_existing_lem out lib (record p.toolchain { release = p.release })
                    (text "cluster.yml") target.kubernetes target.kubernetes (start sha) s₃ at₃
                    (fine_start sha)
                    (ap (λ (r : ClusterRelease). r.kubernetes)
                      (sym (some_injective target p.release p.at))))
                  (λ u s₄ at₄.
                    weaken
                      (Adds out lib {A = Unit {0}} (
                        hashed (some sha)
                        ∷ after_playbook (text "cluster.yml") target.kubernetes target.kubernetes
                            (start sha)))
                      P (require_orchestration_input out lib sha s₄)
                      (at_log (λ l. Adds out lib (hashed (some sha) ∷ l))
                        (require_orchestration_input out lib sha s₄) s₄
                        (after_playbook (text "cluster.yml") target.kubernetes target.kubernetes
                          (start sha))
                        at₄ (require_orchestration_input_lem out lib sha s₄)
                        (refl, (refl, (refl, fine_start sha))))
                      (λ u s₅ at₅. (sha, at₅)))))

  waits :
      (target : ClusterRelease) (raw : Text) (s : Run W)
      → Reads out lib raw target.kubernetes
      → s.log ≡ read (some raw) ∷ []
      → Holds
          (λ (u : Unit {0}) s'.
            IsFine s'.log
            × ((raw : Text) × Reads out lib raw target.kubernetes
                × (s'.log ≡ waited target.kubernetes true ∷ read (some raw) ∷ [])))
          (await_healthy out lib target.kubernetes s)
  waits target raw s reads at =
      weaken (Adds out lib {A = Unit {0}} (waited target.kubernetes true ∷ read (some raw) ∷ [])) _
        (await_healthy out lib target.kubernetes s)
        (at_log (λ l. Adds out lib (waited target.kubernetes true ∷ l))
          (await_healthy out lib target.kubernetes s) s (read (some raw) ∷ []) at
          (await_healthy_lem out lib target.kubernetes s) (IsFine-read raw [] (tt, tt)))
        (λ u s' h. (subst IsFine (sym h) (refl, (IsFine-read raw [] (tt, tt))), (raw, reads, h)))

  -- The mode decides whether the configuration of a cluster at its target is applied.
  mode_lem :
      (mode : ConvergenceMode) (target : ClusterRelease) (raw : Text) (s : Run W)
      → Reads out lib raw target.kubernetes
      → s.log ≡ read (some raw) ∷ []
      → Holds
          (λ (u : Unit {0}) s'. IsFine s'.log × Current out lib mode target.kubernetes s'.log)
          (converge_mode out lib mode target s)
  unfolding converge_mode
  mode_lem apply_convergence target raw s reads at =
      weaken _ _ (converge_current out lib target s) (converge_current_lem target raw s at)
        (λ u s' h. (
          subst IsFine (sym h.1) (IsFine-current target.kubernetes raw h.0),
          (raw, h.0, reads, h.1),
        ))
  mode_lem upgrade_convergence target raw s reads at = waits target raw s reads at
  mode_lem full_convergence target raw s reads at = waits target raw s reads at
  mode_lem (other_mode n) target raw s reads at = waits target raw s reads at

  pub converge_at_target_lem :
      (project : Project) (target : ClusterRelease) (plan : UpgradePlan) (mode : ConvergenceMode)
      (s : Run W)
      → s.log ≡ []
      → Holds
          (λ plan' s'.
            (plan' ≡ plan) × IsFine s'.log × Current out lib mode target.kubernetes s'.log)
          (converge_at_target out lib project target plan mode s)
  unfolding converge_at_target
  converge_at_target_lem project target plan mode s at =
      then-Adds out lib P (cluster_client out lib s) _ (λ l. l) s [] at (tt, tt)
        (cluster_client_lem out lib s)
        (λ s₁ at₁.
          then_read out lib P _ s₁ [] at₁ (tt, tt)
            (λ live raw s₂ reads at₂.
              bind-lift P (validate_current_target_state project live target) s₂ _
                (subst IsOrderly (sym at₂) (tt, tt)) (target_safe project live target)
                (λ good.
                  bind
                    (λ (u : Unit {0}) s'.
                      IsFine s'.log × Current out lib mode target.kubernetes s'.log)
                    P (converge_mode out lib mode target s₂) (λ x. pure plan)
                    (mode_lem mode target raw s₂
                      (reads ∙ ap some (live_target project live target good)) at₂)
                    (λ u s₃ h. (refl, h.0, h.1)))))
    where
      P : UpgradePlan → Run W → Type 0
      P plan' s' = (plan' ≡ plan) × IsFine s'.log × Current out lib mode target.kubernetes s'.log
