-- ===== src/Orchestration/Prepare.antt =====
-- cli/orchestration/service.go: `prepareReleases`, which prepares one toolchain for each commit of
-- Kubespray. The preparations run at the same time and write to places of their own; here they run one
-- after another, since their order has no effect on toolchains that are returned; where several fail, the error
-- may be that of any. `prepareRelease`,
-- which fetches and installs, is a parameter.
pub mod Groups
pub mod Commits
pub mod Matches
use atum.Base.{
  ℕ, zero, suc, ◌+◌, Bool, true, false, ◌⊎◌, inl, inr, Option, none, some, List, [], ◌∷◌, ◌++◌,
  Text, text, str_eq, length, get_elem?, set, replicate, map, if◌then◌else◌,
}
use atum.Ladder.{ClusterRelease, GitSource, KubernetesChecksums}
use atum.Orchestration.{Result, ok, err, ◌>>=◌, or_error, or_panic, not_prepared}

-- `Toolchain`
pub record Toolchain : Type 0 where
  pub release : ClusterRelease
  pub source : Text
  pub ansible_ad_hoc : Text
  pub ansible : Text
  pub environment : List Text
  pub identity_sha256 : Text

-- The zero value, with which the slice of toolchains is made.
abbrev pub zero_toolchain : Toolchain
zero_toolchain = record {
  release = record {
    kubernetes = [];
    kubespray = record {
      url = [];
      version = [];
      ref = [];
      branch = [];
      commit = [];
      patches = none;
      kube_version = [];
      assets = none;
    };
    checksums = record { kubelet = []; kubeadm = []; kubectl = [] };
  };
  source = [];
  ansible_ad_hoc = [];
  ansible = [];
  environment = [];
  identity_sha256 = [];
}

-- `preparation`: the releases of one commit, the first apart, and their indices.
pub record Preparation : Type 0 where
  pub primary : ClusterRelease
  pub others : List ClusterRelease
  pub indexes : List ℕ

-- `prepareRelease` as the outside answers it, for the first release and all of its commit: a toolchain, or
-- an error.
abbrev pub Hydrate : Type 0
Hydrate = ClusterRelease → List ClusterRelease → Toolchain ⊎ Text

-- One turn of the loop over the releases.
pub place : ℕ → ClusterRelease → List Preparation → List Preparation
unfolding str_eq
place i r [] = record { primary = r; others = []; indexes = i ∷ [] } ∷ []
place i r (p ∷ ps) =
    let rest = place i r ps in
    if str_eq p.primary.kubespray.commit r.kubespray.commit
    then record p { others = p.others ++ r ∷ []; indexes = p.indexes ++ i ∷ [] } ∷ ps
    else p ∷ rest

pub gather : ℕ → List ClusterRelease → List Preparation → List Preparation
unfolding place
gather i [] ps = ps
gather i (r ∷ rs) ps = gather (suc i) rs (place i r ps)

-- The loop of a preparation over its indices.
pub assign : List ClusterRelease → Toolchain → List ℕ → List Toolchain → Result (List Toolchain)
assign releases t [] ts = ok ts
assign releases t (i ∷ is) ts = do
  r ← or_panic (get_elem? releases i)
  assign releases t is (set ts i (record t { release = r }))

-- The toolchain of a preparation, or its error with the release that it was for.
abbrev pub prepared_of : Preparation → Toolchain ⊎ Text → Result Toolchain
prepared_of p (inl t) = ok t
prepared_of p (inr message) =
    err (not_prepared p.primary.kubernetes p.primary.kubespray.version message)

pub run_preparations :
    Hydrate → List ClusterRelease → List Preparation → List Toolchain → Result (List Toolchain)
unfolding assign
run_preparations hydrate releases [] ts = ok ts
run_preparations hydrate releases (p ∷ ps) ts = do
  t ← prepared_of p (hydrate p.primary (p.primary ∷ p.others))
  written ← assign releases t p.indexes ts
  run_preparations hydrate releases ps written

-- `prepareReleases`
unfoldable pub prepare_releases : Hydrate → List ClusterRelease → Result (List Toolchain)
unfolding gather run_preparations
prepare_releases hydrate releases =
    run_preparations hydrate releases (gather 0 releases [])
      (replicate (length releases) zero_toolchain)
