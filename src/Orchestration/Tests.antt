-- ===== src/Orchestration/Tests.antt =====
-- Plans and runs of the convergence for a small ladder.
use atum.Base.{
  ℕ, ◌+◌, inl, true, false, some, List, [], ◌∷◌, ◌++◌, text, get_elem?, ◌≡◌, ◌↔◌, refl, arith,
}
use atum.Ladder.{ClusterRelease}
use atum.Ladder.Tests.{
  test_print, test_semver, test_semver-IsSemver, test_release, test_releases, test_valid,
}
use atum.Orchestration.{
  install_target, kubernetes_first, apply_convergence, upgrade_convergence, full_convergence,
  UpgradePlan, Project, FluxRootObservation, ok, err, needs_cluster, unhealthy,
}
use atum.Orchestration.Position.{LiveReleasePosition, live_release_position}
use atum.Orchestration.Plan.{upgrade_plan}
use atum.Orchestration.Plan.Next.{Planned, upgrade_plan-Planned}
use atum.Orchestration.Admit.{validate_plan, validate_mode}
use atum.Orchestration.Health.{Poll, canonical_kubernetes_version, healthy, wait_healthy}
use atum.Orchestration.Health.Seen.{IsHealthy, wait_healthy_iff}
use atum.Orchestration.Health.Canonical.{canonical_kubernetes_version_round_trip}
use atum.Orchestration.Prepare.{Toolchain, zero_toolchain, Hydrate, prepare_releases}
use atum.Orchestration.Prepare.Matches.{Prepared, prepare_releases-Prepared}
use atum.Orchestration.Outside.{Outside, opened, Call, read, hashed, waited, played, Answer, Run}
use atum.Orchestration.Converge.{plan, converge_planned}
use atum.Orchestration.Converge.Returns.{Converged, converge_planned-Converged}
use atum.Orchestration.Converge.Plans.{plan-validate_plan}

abbrev test_project : Project
test_project = record {
  releases = test_releases;
  automatic_upgrade = true;
  constraints = record { id = text "big-bang"; constraint = text "1.1" } ∷ [];
}

-- A cluster: the version that it runs, counted by the playbooks that have run.
abbrev test_poll : ℕ → Poll
test_poll v = record {
  version = some (b'v' ∷ test_print v);
  nodes =
      some (
        record { unschedulable = false; kubelet_version = b'v' ∷ test_print v; ready = true } ∷ []);
  pages =
      some (record {
        items = record { phase = text "Running"; deleting = false; ready = true } ∷ [];
        continuation = [];
      })
      ∷ [];
}

abbrev test_toolchain : ClusterRelease → Toolchain
test_toolchain r = record zero_toolchain { release = r; source = text "src" }

abbrev test_hydrate : Hydrate
test_hydrate r rs = inl (test_toolchain r)

-- The state of the outside is the minor version of the cluster.
abbrev test_outside : Outside ℕ
test_outside = record {
  open_kubeconfig = λ w. (opened, w);
  server_version = λ w. (some (b'v' ∷ test_print w), w);
  observe_root = λ w. (
    some (record {
      found = true;
      target_current = true;
      source_ready = true;
      helm_release_ready = true;
    }),
    w,
  );
  input_sha256 = λ w. (some (text "sha"), w);
  hydrate = λ w. (test_hydrate, w);
  wait_connections = λ t w. (true, w);
  play = λ t playbook w. (true, w + 1);
  polls = λ exact w. (test_poll w ∷ [], w);
}

abbrev start : Run ℕ
start = record { rest = b'0'; log = []; trace = [] }

abbrev test_plan : UpgradePlan
test_plan = record {
  current = text "1.0";
  target = text "1.2";
  order = kubernetes_first;
  steps = test_release b'1' b'6' ∷ [];
}

abbrev planned_state : Run ℕ
planned_state = (plan test_outside test_semver (some test_project) start).1

planned : plan test_outside test_semver (some test_project) start ≡ (ok test_plan, planned_state)
unfolding plan
planned = refl

abbrev test_log : List Call
test_log =
    read (some (text "v1.1"))
    ∷ hashed (some (text "sha"))
    ∷ waited (text "1.1") true
    ∷ played (text "upgrade-cluster.yml") (text "1.1") true
    ∷ waited (text "1.0") true
    ∷ hashed (some (text "sha"))
    ∷ read (some (text "v1.0"))
    ∷ []

abbrev test_trace : List Answer
test_trace =
    (converge_planned test_outside test_semver (some test_project) test_plan apply_convergence
      start).1.trace

converged :
    converge_planned test_outside test_semver (some test_project) test_plan apply_convergence start
    ≡ (ok test_plan, record { rest = b'1'; log = test_log; trace = test_trace })
unfolding converge_planned
converged = refl

-- A node that is cordoned, so that the wait gives up before any playbook.
abbrev cordoned : Poll
cordoned = record (test_poll b'0') {
  nodes = some (record { unschedulable = true; kubelet_version = text "v1.0"; ready = true } ∷ []);
}

refused :
    (converge_planned
      (record test_outside { polls = λ exact w. (cordoned ∷ cordoned ∷ [], w) })
      test_semver
      (some test_project)
      test_plan
      apply_convergence
      start).0
    ≡ err unhealthy
unfolding converge_planned
refused = refl

no_cluster :
    validate_plan
      (some test_project)
      (record {
        current = [];
        target = text "1.2";
        order = install_target;
        steps = test_release b'2' b'7' ∷ [];
      })
      upgrade_convergence
    ≡ err needs_cluster
unfolding validate_plan
no_cluster = refl

-- What the theorems say of these inputs.
converge_planned-Converged_example :
    (test_plan ≡ test_plan)
    × Converged test_outside test_semver test_plan apply_convergence kubernetes_first test_log
converge_planned-Converged_example =
    converge_planned-Converged test_outside test_semver (some test_project) test_plan test_plan
      apply_convergence start (record { rest = b'1'; log = test_log; trace = test_trace }) refl
      converged

plan-validate_plan_example :
    validate_plan (some test_project) test_plan full_convergence
    ≡ validate_mode true test_plan full_convergence
plan-validate_plan_example =
    plan-validate_plan test_outside test_semver test_semver-IsSemver test_project full_convergence
      test_plan start planned_state test_valid (λ i r v at named. ground arith) planned

abbrev test_position : LiveReleasePosition ℕ
test_position = record { current = b'0'; target = b'2'; current_index = 0 }

placed :
    live_release_position test_semver test_project (text "1.0") (test_release b'2' b'7')
    ≡ ok test_position
unfolding live_release_position
placed = refl

abbrev test_root : FluxRootObservation
test_root = record {
  found = true;
  target_current = true;
  source_ready = false;
  helm_release_ready = true;
}

upgrade_plan-Planned_example :
    Planned test_semver test_project test_root test_position
      (upgrade_plan test_semver test_project test_root test_position)
upgrade_plan-Planned_example =
    upgrade_plan-Planned test_semver test_semver-IsSemver test_project test_root (text "1.0")
      (test_release b'2' b'7') test_position test_valid placed (omega arith)

wait_healthy_iff_example :
    (wait_healthy test_semver (text "1.0") (cordoned ∷ test_poll b'0' ∷ []) ≡ true) ↔ (
      (i : ℕ) × (poll : Poll) × (get_elem? (cordoned ∷ test_poll b'0' ∷ []) i ≡ some poll)
      × IsHealthy test_semver (text "1.0") poll)
wait_healthy_iff_example =
    wait_healthy_iff test_semver (text "1.0") (cordoned ∷ test_poll b'0' ∷ [])

found_at_once : healthy test_semver (text "1.0") cordoned ≡ false
unfolding healthy
found_at_once = refl

canonical : canonical_kubernetes_version test_semver (text "v1.7") ≡ some (text "1.7")
unfolding canonical_kubernetes_version
canonical = refl

canonical_kubernetes_version_round_trip_example :
    (canonical_kubernetes_version test_semver (text "1.7") ≡ some (text "1.7"))
    × (canonical_kubernetes_version test_semver (text "v" ++ text "1.7") ≡ some (text "1.7"))
canonical_kubernetes_version_round_trip_example =
    canonical_kubernetes_version_round_trip test_semver test_semver-IsSemver (text "v1.7")
      (text "1.7") canonical

prepare_releases-Prepared_example :
    Prepared test_hydrate test_releases (prepare_releases test_hydrate test_releases)
prepare_releases-Prepared_example = prepare_releases-Prepared test_hydrate test_releases
