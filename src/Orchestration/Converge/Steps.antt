-- ===== src/Orchestration/Converge/Steps.antt =====
-- The trace of the upgrade steps of `ConvergePlanned`.
use atum.Base.{
  ℕ, suc, ◌+◌, Bool, true, false, not, some, List, [], ◌∷◌, Text, text, str_eq, str_eq→eq, length,
  get_elem?, get_elem?-of_lt, ◌≡◌, refl, sym, ap, subst, ◌∙◌, arith,
}
use atum.Ladder.{ClusterRelease, Semver}
use atum.Orchestration.{wrong_toolchain, wrong_result}
use atum.Orchestration.Health.{canonical_kubernetes_version}
use atum.Orchestration.Prepare.{Toolchain}
use atum.Orchestration.Outside.{
  Outside, Call, read, hashed, waited, played, Run, run_kubespray, await_healthy,
}
use atum.Orchestration.Converge.{
  require_orchestration_input, converge_existing, is_toolchain_of, upgrade_step, upgrade_steps,
}
use atum.Orchestration.Converge.Rules.{
  IsFine, IsOrderly, IsGate, Holds, bind, bind-refuse, bind-or_panic, at_log, weaken,
}
use atum.Orchestration.Converge.Calls.{
  Adds, require_orchestration_input_lem, run_kubespray_lem, await_healthy_lem, then-Adds, then_read,
}

not-false : (b : Bool) → not b ≡ false → b ≡ true
not-false true h = refl
not-false false h = cc

-- A playbook that succeeds, between two waits for a healthy cluster.
abbrev pub after_playbook : Text → Text → Text → List Call → List Call
after_playbook playbook before kubernetes log =
    waited kubernetes true ∷ played playbook kubernetes true ∷ waited before true ∷ log

-- The trace of one step.
abbrev pub step_log : Text → Text → Text → Text → List Call → List Call
step_log sha before kubernetes raw log =
    read (some raw)
    ∷ hashed (some sha)
    ∷ after_playbook (text "upgrade-cluster.yml") before kubernetes log

IsFine-step_log :
    (sha before kubernetes raw : Text) (log : List Call)
    → IsFine log
    → IsFine (step_log sha before kubernetes raw log)
IsFine-step_log sha before kubernetes raw log fine =
    (λ h. cc h, ((λ h. cc h), (refl, (refl, (refl, fine)))))

module _ {W V C : Type 0} (out : Outside W) (lib : Semver V C) where
  -- `convergeExistingKubespray` after a wait that has found the cluster healthy.
  pub converge_existing_lem :
      (t : Toolchain) (playbook before kubernetes : Text) (log : List Call) (s : Run W)
      → s.log ≡ waited before true ∷ log
      → IsFine log
      → t.release.kubernetes ≡ kubernetes
      → Holds
          (Adds out lib {A = Unit {0}} (after_playbook playbook before kubernetes log))
          (converge_existing out lib t playbook kubernetes s)
  unfolding converge_existing
  converge_existing_lem t playbook before kubernetes log s at fine same =
      bind (Adds out lib (played playbook t.release.kubernetes true ∷ waited before true ∷ log))
        (Adds out lib (after_playbook playbook before kubernetes log))
        (run_kubespray out lib t playbook s) _
        (subst
          (λ l.
            IsGate l
            → IsOrderly l
            → Holds (Adds out lib {A = Unit {0}} (played playbook t.release.kubernetes true ∷ l))
                (run_kubespray out lib t playbook s))
          at (run_kubespray_lem out lib t playbook s) refl fine)
        (λ u s' added.
          at_log (λ l. Adds out lib (waited kubernetes true ∷ l))
            (await_healthy out lib kubernetes s') s'
            (played playbook kubernetes true ∷ waited before true ∷ log)
            (added ∙ ap (λ k. played playbook k true ∷ waited before true ∷ log) same)
            (await_healthy_lem out lib kubernetes s') (refl, (refl, fine)))

  -- A step ends at the version of its release: the cluster was healthy before and is so after, the
  -- inputs are those from the start, and the version is read again.
  abbrev pub Stepped : Text → Text → ClusterRelease → List Call → Text → Run W → Type 0
  Stepped sha before r log next s =
      (next ≡ r.kubernetes)
      × ((raw : Text) × (canonical_kubernetes_version lib raw ≡ some r.kubernetes)
          × (s.log ≡ step_log sha before r.kubernetes raw log))

  upgrade_step_lem :
      (sha before : Text) (r : ClusterRelease) (t : Toolchain) (log : List Call) (s : Run W)
      → s.log ≡ log
      → IsFine log
      → Holds (Stepped sha before r log) (upgrade_step out lib sha r t before s)
  unfolding upgrade_step is_toolchain_of
  upgrade_step_lem sha before r t log s at fine =
      then-Adds out lib P (await_healthy out lib before s) _ (λ l. waited before true ∷ l) s log at
        fine (await_healthy_lem out lib before s)
        (λ s₁ at₁.
          bind-refuse P (not (is_toolchain_of t r)) wrong_toolchain s₁ _
            (subst IsOrderly (sym at₁) fine)
            (λ matches.
              bind (Adds out lib ran) P
                (converge_existing out lib t (text "upgrade-cluster.yml") r.kubernetes s₁) _
                (converge_existing_lem t (text "upgrade-cluster.yml") before r.kubernetes log s₁ at₁
                  fine (str_eq→eq t.release.kubernetes r.kubernetes (ground (arith, matches))))
                (λ u s₂ at₂.
                  then-Adds out lib P (require_orchestration_input out lib sha s₂) _
                    (λ l. hashed (some sha) ∷ l) s₂ ran at₂ (refl, (refl, (refl, fine)))
                    (require_orchestration_input_lem out lib sha s₂)
                    (λ s₃ at₃.
                      then_read out lib P _ s₃ (hashed (some sha) ∷ ran) at₃
                        ((λ h. cc h), (refl, (refl, (refl, fine))))
                        (λ live raw s₄ is at₄.
                          bind-refuse P (not (str_eq live r.kubernetes)) wrong_result s₄ _
                            (subst IsOrderly (sym at₄)
                              (IsFine-step_log sha before r.kubernetes raw log fine).1)
                            (λ same. ended live raw s₄ is at₄ (
                              str_eq→eq live r.kubernetes
                                (not-false (str_eq live r.kubernetes) same))))))))
    where
      P : Text → Run W → Type 0
      P = Stepped sha before r log

      ran : List Call
      ran = after_playbook (text "upgrade-cluster.yml") before r.kubernetes log

      ended :
          (live raw : Text) (s₄ : Run W)
          → canonical_kubernetes_version lib raw ≡ some live
          → s₄.log ≡ step_log sha before r.kubernetes raw log
          → live ≡ r.kubernetes
          → Stepped sha before r log live s₄
      ended live raw s₄ is at₄ same = (same, (raw, is ∙ ap some same, at₄))

  -- The trace of the steps: each starts at the version of the one before.
  abbrev pub Climbs : Text → Text → List ClusterRelease → List Call → List Call → Type 0
  Climbs sha live [] log log' = log' ≡ log
  Climbs sha live (r ∷ rs) log log' =
      (raw : Text) × (canonical_kubernetes_version lib raw ≡ some r.kubernetes)
      × Climbs sha r.kubernetes rs (step_log sha live r.kubernetes raw log) log'

  abbrev pub Climbed : Text → Text → List ClusterRelease → List Call → Unit {0} → Run W → Type 0
  Climbed sha live rs log u s = IsFine s.log × Climbs sha live rs log s.log

  pub upgrade_steps_lem :
      (sha : Text) (ts : List Toolchain) (i : ℕ) (rs : List ClusterRelease) (live : Text)
      (log : List Call) (s : Run W)
      → length ts ≡ i + length rs
      → s.log ≡ log
      → IsFine log
      → Holds (Climbed sha live rs log) (upgrade_steps out lib sha ts i rs live s)
  unfolding upgrade_steps
  upgrade_steps_lem sha ts i [] live log s len at fine = (subst IsFine (sym at) fine, at)
  upgrade_steps_lem sha ts i (r ∷ rs) live log s len at fine =
      turn (get_elem?-of_lt ts i (omega (arith, len))) (λ raw s₁ at₁.
        upgrade_steps_lem sha ts (suc i) rs r.kubernetes (step_log sha live r.kubernetes raw log) s₁
          (omega (arith, len)) at₁ (IsFine-step_log sha live r.kubernetes raw log fine))
    where
      turn :
          ((t : Toolchain) × (get_elem? ts i ≡ some t))
          → ((raw : Text) (s₁ : Run W)
              → s₁.log ≡ step_log sha live r.kubernetes raw log
              → Holds
                  (Climbed sha r.kubernetes rs (step_log sha live r.kubernetes raw log))
                  (upgrade_steps out lib sha ts (suc i) rs r.kubernetes s₁))
          → Holds (Climbed sha live (r ∷ rs) log) (upgrade_steps out lib sha ts i (r ∷ rs) live s)
      turn (t, there) later =
          bind-or_panic (Climbed sha live (r ∷ rs) log) (get_elem? ts i) t s _ there (
            bind (Stepped sha live r log) (Climbed sha live (r ∷ rs) log)
              (upgrade_step out lib sha r t live s) _ (upgrade_step_lem sha live r t log s at fine)
              (λ next s₁ stepped.
                subst
                  (λ n.
                    Holds (Climbed sha live (r ∷ rs) log)
                      (upgrade_steps out lib sha ts (suc i) rs n s₁))
                  (sym stepped.0) (further s₁ stepped.1 (later stepped.1.0 s₁ stepped.1.2))))
        where
          further :
              (s₁ : Run W)
              (h : (raw : Text) × (canonical_kubernetes_version lib raw ≡ some r.kubernetes)
                × (s₁.log ≡ step_log sha live r.kubernetes raw log))
              → Holds
                  (Climbed sha r.kubernetes rs (step_log sha live r.kubernetes h.0 log))
                  (upgrade_steps out lib sha ts (suc i) rs r.kubernetes s₁)
              → Holds
                  (Climbed sha live (r ∷ rs) log)
                  (upgrade_steps out lib sha ts (suc i) rs r.kubernetes s₁)
          further s₁ (raw, is, at₁) h =
              weaken (Climbed sha r.kubernetes rs (step_log sha live r.kubernetes raw log))
                (Climbed sha live (r ∷ rs) log)
                (upgrade_steps out lib sha ts (suc i) rs r.kubernetes s₁) h
                (λ u s₂ c. (c.0, (raw, is, c.1)))
