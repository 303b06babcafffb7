-- ===== src/Orchestration/Converge/Calls.antt =====
-- What each call of the outside adds to the log.
use atum.Base.{
  Bool, true, false, not, Option, none, some, List, ◌∷◌, Text, str_eq, str_eq→eq, ◌≡◌, refl, sym,
  ap, subst, ◌∙◌,
}
use atum.Ladder.{ClusterRelease, Semver}
use atum.Orchestration.{
  Result, ok, err, panic, or_error, refuse, changed_inputs, outside, unhealthy,
}
use atum.Orchestration.Health.{canonical_kubernetes_version, wait_healthy}
use atum.Orchestration.Prepare.{Toolchain, Hydrate, prepare_releases}
use atum.Orchestration.Prepare.Matches.{Prepared, prepare_releases-Prepared}
use atum.Orchestration.Outside.{
  Outside, Opening, opened, no_kubeconfig, broken_kubeconfig, opening, Call, read, hashed,
  connected, waited, played, called, kubeconfig, hydrated, Run, M, lift, after, passes, discovered,
  cluster_client, discover_state, orchestration_input, prepared_toolchains,
  wait_for_install_connections, run_kubespray, await_healthy,
}
use atum.Orchestration.Converge.{require_orchestration_input}
use atum.Orchestration.Converge.Rules.{IsGate, IsFine, IsOrderly, Holds, bind, at_log}

module _ {W V C : Type 0} (out : Outside W) (lib : Semver V C) where
  -- The state after a call whose answer was good.
  abbrev pub Adds : {A : Type 0} → List Call → A → Run W → Type 0
  Adds log a s = s.log ≡ log

  abbrev pub AddsRead : List Call → Text → Run W → Type 0
  AddsRead log live s =
      (raw : Text) × (canonical_kubernetes_version lib raw ≡ some live)
      × (s.log ≡ read (some raw) ∷ log)

  pub cluster_client_lem :
      (s : Run W) → IsFine s.log → Holds (Adds {A = Unit {0}} s.log) (cluster_client out lib s)
  unfolding cluster_client
  cluster_client_lem s fine = split (out.open_kubeconfig s.rest)
    where
      split :
          (x : Opening × W)
          → Holds
              (Adds {A = Unit {0}} s.log)
              (opening x.0, record s { rest = x.1; trace = kubeconfig x.0 ∷ s.trace })
      split (opened, w) = refl
      split (no_kubeconfig, w) = fine.1
      split (broken_kubeconfig, w) = fine.1

  pub discover_state_lem :
      (s : Run W) → IsFine s.log → Holds (AddsRead s.log) (discover_state out lib s)
  unfolding discover_state discovered
  discover_state_lem s fine = split (out.server_version s.rest)
    where
      canonical :
          (raw : Text) (w : W) (o : Option Text)
          → canonical_kubernetes_version lib raw ≡ o
          → Holds (AddsRead s.log) (
            discovered out lib (some raw),
            record {
              rest = w;
              log = read (some raw) ∷ s.log;
              trace = called (read (some raw)) ∷ s.trace;
            },
          )
      canonical raw w none e = rw e fine
      canonical raw w (some live) e = rw e (raw, e, refl)

      split :
          (x : Option Text × W)
          → Holds (AddsRead s.log) (
            discovered out lib x.0,
            record { rest = x.1; log = read x.0 ∷ s.log; trace = called (read x.0) ∷ s.trace },
          )
      split (none, w) = fine
      split (some raw, w) = canonical raw w (canonical_kubernetes_version lib raw) refl

  pub orchestration_input_lem :
      (s : Run W)
      → IsFine s.log
      → Holds (λ sha s'. s'.log ≡ hashed (some sha) ∷ s.log) (orchestration_input out lib s)
  unfolding orchestration_input
  orchestration_input_lem s fine = split (out.input_sha256 s.rest)
    where
      split :
          (x : Option Text × W)
          → Holds
              (λ sha s'. s'.log ≡ hashed (some sha) ∷ s.log)
              (
                or_error outside x.0,
                record {
                  rest = x.1;
                  log = hashed x.0 ∷ s.log;
                  trace = called (hashed x.0) ∷ s.trace;
                },
              )
      split (none, w) = fine
      split (some sha, w) = refl

  pub require_orchestration_input_lem :
      (sha : Text) (s : Run W)
      → IsFine s.log
      → Holds
          (Adds {A = Unit {0}} (hashed (some sha) ∷ s.log))
          (require_orchestration_input out lib sha s)
  unfolding require_orchestration_input
  require_orchestration_input_lem sha s fine =
      bind (λ sha' s'. s'.log ≡ hashed (some sha') ∷ s.log) (Adds (hashed (some sha) ∷ s.log))
        (orchestration_input out lib s) _ (orchestration_input_lem s fine)
        (λ actual s' added. checked actual s' added (str_eq actual sha) refl)
    where
      checked :
          (actual : Text) (s' : Run W)
          → s'.log ≡ hashed (some actual) ∷ s.log
          → (b : Bool) → str_eq actual sha ≡ b
          → Holds
              (Adds {A = Unit {0}} (hashed (some sha) ∷ s.log))
              (lift (refuse (not b) changed_inputs) s')
      checked actual s' added true e =
          added ∙ ap (λ x. hashed (some x) ∷ s.log) (str_eq→eq actual sha e)
      checked actual s' added false e = subst IsOrderly (sym added) fine

  pub prepared_lem :
      (releases : List ClusterRelease) (s : Run W)
      → IsFine s.log
      → Holds
          (λ ts s'. ((hydrate : Hydrate) × Prepared hydrate releases (ok ts)) × (s'.log ≡ s.log))
          (prepared_toolchains out lib releases s)
  unfolding prepared_toolchains
  prepared_lem releases s fine =
      split (out.hydrate s.rest) (prepare_releases (out.hydrate s.rest).0 releases)
        (prepare_releases-Prepared (out.hydrate s.rest).0 releases)
    where
      split :
          (x : Hydrate × W) (r : Result (List Toolchain))
          → Prepared x.0 releases r
          → Holds
              (λ ts s'.
                ((hydrate : Hydrate) × Prepared hydrate releases (ok ts)) × (s'.log ≡ s.log))
              (r, record s { rest = x.1; trace = hydrated x.0 releases ∷ s.trace })
      split (hydrate, w) (ok ts) p = ((hydrate, p), refl)
      split (hydrate, w) (err e) p = fine.1
      split (hydrate, w) panic p = p

  pub wait_for_install_connections_lem :
      (t : Toolchain) (s : Run W)
      → IsFine s.log
      → Holds
          (Adds {A = Unit {0}} (connected true ∷ s.log))
          (wait_for_install_connections out lib t s)
  unfolding wait_for_install_connections
  wait_for_install_connections_lem t s fine = split (out.wait_connections t s.rest)
    where
      split :
          (x : Bool × W)
          → Holds (Adds {A = Unit {0}} (connected true ∷ s.log)) (
            passes x.0 outside,
            record {
              rest = x.1;
              log = connected x.0 ∷ s.log;
              trace = called (connected x.0) ∷ s.trace;
            },
          )
      split (true, w) = refl
      split (false, w) = fine

  pub await_healthy_lem :
      (exact : Text) (s : Run W)
      → IsFine s.log
      → Holds (Adds {A = Unit {0}} (waited exact true ∷ s.log)) (await_healthy out lib exact s)
  unfolding await_healthy
  await_healthy_lem exact s fine =
      split (out.polls exact s.rest).1 (wait_healthy lib exact (out.polls exact s.rest).0)
    where
      split :
          (w : W) (good : Bool)
          → Holds (Adds {A = Unit {0}} (waited exact true ∷ s.log)) (
            passes good unhealthy,
            record {
              rest = w;
              log = waited exact good ∷ s.log;
              trace = called (waited exact good) ∷ s.trace;
            },
          )
      split w true = refl
      split w false = fine

  -- A playbook runs right after its gate.
  pub run_kubespray_lem :
      (t : Toolchain) (playbook : Text) (s : Run W)
      → IsGate s.log
      → IsOrderly s.log
      → Holds
          (Adds {A = Unit {0}} (played playbook t.release.kubernetes true ∷ s.log))
          (run_kubespray out lib t playbook s)
  unfolding run_kubespray
  run_kubespray_lem t playbook s gate orderly = split (out.play t playbook s.rest)
    where
      split :
          (x : Bool × W)
          → Holds (Adds {A = Unit {0}} (played playbook t.release.kubernetes true ∷ s.log)) (
            passes x.0 outside,
            record {
              rest = x.1;
              log = played playbook t.release.kubernetes x.0 ∷ s.log;
              trace = called (played playbook t.release.kubernetes x.0) ∷ s.trace;
            },
          )
      split (true, w) = refl
      split (false, w) = (gate, orderly)

  -- The rules by which a chain goes on after a call, for a log that is known.
  pub then-Adds :
      {B : Type 0} (P : B → Run W → Type 0) (x : Result (Unit {0}) × Run W) (f : Unit {0} → M W B)
      (Q : List Call → List Call) (s : Run W) (log : List Call)
      → s.log ≡ log
      → IsFine log
      → (IsFine s.log → Holds (Adds {A = Unit {0}} (Q s.log)) x)
      → ((s' : Run W) → s'.log ≡ Q log → Holds P (f tt s'))
      → Holds P (after f x)
  then-Adds P x f Q s log at fine call k =
      bind (Adds (Q log)) P x f (at_log (λ l. Adds (Q l)) x s log at call fine)
        (λ u s' added. k s' added)

  pub then_hashed :
      {B : Type 0} (P : B → Run W → Type 0) (f : Text → M W B) (s : Run W) (log : List Call)
      → s.log ≡ log
      → IsFine log
      → ((sha : Text) (s' : Run W) → s'.log ≡ hashed (some sha) ∷ log → Holds P (f sha s'))
      → Holds P (after f (orchestration_input out lib s))
  then_hashed P f s log at fine k =
      bind (λ sha s'. s'.log ≡ hashed (some sha) ∷ log) P (orchestration_input out lib s) f
        (at_log (λ l sha s'. s'.log ≡ hashed (some sha) ∷ l) (orchestration_input out lib s) s log
          at (orchestration_input_lem s) fine)
        k

  pub then-Prepared :
      {B : Type 0} (P : B → Run W → Type 0) (f : List Toolchain → M W B)
      (releases : List ClusterRelease) (s : Run W) (log : List Call)
      → s.log ≡ log
      → IsFine log
      → ((ts : List Toolchain) (s' : Run W)
          → s'.log ≡ log
          → (hydrate : Hydrate) × Prepared hydrate releases (ok ts)
          → Holds P (f ts s'))
      → Holds P (after f (prepared_toolchains out lib releases s))
  then-Prepared P f releases s log at fine k =
      bind (λ ts s'. ((hydrate : Hydrate) × Prepared hydrate releases (ok ts)) × (s'.log ≡ log)) P
        (prepared_toolchains out lib releases s) f
        (at_log
          (λ l ts s'. ((hydrate : Hydrate) × Prepared hydrate releases (ok ts)) × (s'.log ≡ l))
          (prepared_toolchains out lib releases s) s log at (prepared_lem releases s) fine)
        (λ ts s' h. k ts s' h.1 h.0)

  pub then_read :
      {B : Type 0} (P : B → Run W → Type 0) (f : Text → M W B) (s : Run W) (log : List Call)
      → s.log ≡ log
      → IsFine log
      → ((live raw : Text) (s' : Run W)
          → canonical_kubernetes_version lib raw ≡ some live
          → s'.log ≡ read (some raw) ∷ log
          → Holds P (f live s'))
      → Holds P (after f (discover_state out lib s))
  then_read P f s log at fine k =
      bind (AddsRead log) P (discover_state out lib s) f
        (at_log AddsRead (discover_state out lib s) s log at (discover_state_lem s) fine)
        (λ live s' h. k live h.0 s' h.1 h.2)
