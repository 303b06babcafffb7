-- ===== src/Orchestration/Outside.antt =====
-- What cli/orchestration asks of the outside: the cluster, the files of the project, the processes. The
-- outside is a state of any type that answers each call, and it may answer anything. Every answer is
-- kept.
use atum.Base.{Bool, true, false, Option, none, some, List, ◌∷◌, Text}
use atum.Ladder.{ClusterRelease, Semver}
use atum.Orchestration.{
  FluxRootObservation, Error, outside, cluster_absent, unhealthy, not_stable_release, Result, ok,
  err, panic, or_error,
}
use atum.Orchestration.Health.{Poll, canonical_kubernetes_version, wait_healthy}
use atum.Orchestration.Prepare.{Toolchain, Hydrate, prepare_releases}

-- The answer to the opening of the kubeconfig.
pub data Opening : Type 0 where
  opened no_kubeconfig broken_kubeconfig : Opening

-- The calls: the kubeconfig is opened, the server's version read, the Flux root observed, the inputs
-- hashed (`orchestrationInputSHA256`), releases prepared (`prepareRelease`), connections awaited, a
-- playbook run (`runKubespray`), and the cluster polled for its health.
pub record Outside (W : Type 0) : Type 0 where
  pub open_kubeconfig : W → Opening × W
  pub server_version : W → Option Text × W
  pub observe_root : W → Option FluxRootObservation × W
  pub input_sha256 : W → Option Text × W
  pub hydrate : W → Hydrate × W
  pub wait_connections : Toolchain → W → Bool × W
  pub play : Toolchain → Text → W → Bool × W
  pub polls : Text → W → List Poll × W

pub data Call : Type 0 where
  read : Option Text → Call
  hashed : Option Text → Call
  connected : Bool → Call
  waited : Text → Bool → Call
  played : Text → Text → Bool → Call

-- An answer of the outside, to each of the calls.
pub data Answer : Type 0 where
  called : Call → Answer
  kubeconfig : Opening → Answer
  root : Option FluxRootObservation → Answer
  hydrated : Hydrate → List ClusterRelease → Answer

-- `log` holds the calls that matter for the order of an upgrade, `trace` all answers; the latest is first.
pub record Run (W : Type 0) : Type 0 where
  pub rest : W
  pub log : List Call
  pub trace : List Answer

abbrev pub M : Type 0 → Type 0 → Type 0
M W A = Run W → Result A × Run W

abbrev pub after : {W A B : Type 0} → (A → M W B) → Result A × Run W → Result B × Run W
after f (ok a, s) = f a s
after f (err e, s) = (err e, s)
after f (panic, s) = (panic, s)

infixl 5 ◌>>=◌ ◌>>◌
abbrev pub ◌>>=◌ : {W A B : Type 0} → M W A → (A → M W B) → M W B
◌>>=◌ m f s = after f (m s)

abbrev pub ◌>>◌ : {W B : Type 0} → M W (Unit {0}) → M W B → M W B
m >> k = m >>= λ _. k

-- A computation that asks nothing.
abbrev pub lift : {W A : Type 0} → Result A → M W A
lift r s = (r, s)

abbrev pub pure : {W A : Type 0} → A → M W A
pure a s = (ok a, s)

abbrev pub raise : {W A : Type 0} → Error → M W A
raise e s = (err e, s)

-- An error for an answer that is not the good one.
abbrev pub passes : Bool → Error → Result (Unit {0})
passes true e = ok tt
passes false e = err e

abbrev pub opening : Opening → Result (Unit {0})
opening opened = ok tt
opening no_kubeconfig = err cluster_absent
opening broken_kubeconfig = err outside

module _ {W V C : Type 0} (out : Outside W) (lib : Semver V C) where
  -- `clusterClient`
  unfoldable pub cluster_client : M W (Unit {0})
  cluster_client s =
      let (o, w) = out.open_kubeconfig s.rest in
      (opening o, record s { rest = w; trace = kubeconfig o ∷ s.trace })

  unfoldable pub discovered : Option Text → Result Text
  unfolding canonical_kubernetes_version
  discovered none = err outside
  discovered (some raw) = or_error not_stable_release (canonical_kubernetes_version lib raw)

  -- `discoverState`
  unfoldable pub discover_state : M W Text
  unfolding discovered
  discover_state s =
      let (answer, w) = out.server_version s.rest in
      (
        discovered answer,
        record { rest = w; log = read answer ∷ s.log; trace = called (read answer) ∷ s.trace },
      )

  -- `bigBangObservation`
  unfoldable pub big_bang_observation : M W FluxRootObservation
  big_bang_observation s =
      let (answer, w) = out.observe_root s.rest in
      (or_error outside answer, record s { rest = w; trace = root answer ∷ s.trace })

  -- `orchestrationInputSHA256`
  unfoldable pub orchestration_input : M W Text
  orchestration_input s =
      let (answer, w) = out.input_sha256 s.rest in
      (
        or_error outside answer,
        record { rest = w; log = hashed answer ∷ s.log; trace = called (hashed answer) ∷ s.trace },
      )

  unfoldable pub prepared_toolchains : List ClusterRelease → M W (List Toolchain)
  unfolding prepare_releases
  prepared_toolchains releases s =
      let (answer, w) = out.hydrate s.rest in
      (
        prepare_releases answer releases,
        record s { rest = w; trace = hydrated answer releases ∷ s.trace },
      )

  -- `waitForInstallConnections`
  unfoldable pub wait_for_install_connections : Toolchain → M W (Unit {0})
  wait_for_install_connections t s =
      let (answer, w) = out.wait_connections t s.rest in
      (
        passes answer outside,
        record {
          rest = w;
          log = connected answer ∷ s.log;
          trace = called (connected answer) ∷ s.trace;
        },
      )

  -- `runKubespray`
  unfoldable pub run_kubespray : Toolchain → Text → M W (Unit {0})
  run_kubespray t playbook s =
      let (answer, w) = out.play t playbook s.rest in
      (
        passes answer outside,
        record {
          rest = w;
          log = played playbook t.release.kubernetes answer ∷ s.log;
          trace = called (played playbook t.release.kubernetes answer) ∷ s.trace;
        },
      )

  -- `waitHealthy`
  unfoldable pub await_healthy : Text → M W (Unit {0})
  unfolding wait_healthy
  await_healthy exact s =
      let (answer, w) = out.polls exact s.rest in
      let good = wait_healthy lib exact answer in
      (
        passes good unhealthy,
        record {
          rest = w;
          log = waited exact good ∷ s.log;
          trace = called (waited exact good) ∷ s.trace;
        },
      )
