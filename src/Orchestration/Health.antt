-- ===== src/Orchestration/Health.antt =====
-- cli/orchestration/health.go and `canonicalKubernetesVersion` of cluster.go: the wait for a healthy
-- cluster. A poll is given by the replies that it gets, and the wait by the polls up to its deadline;
-- the reports of progress are left out.
pub mod Pods
pub mod Seen
pub mod Canonical
use atum.Base.{
  ℕ, zero, suc, ◌+◌, Bool, true, false, ◌&&◌, ◌||◌, not, Option, none, some, List, [], ◌∷◌, Text,
  text, str_eq, trim_prefix, length, ◌==◌, if◌then◌else◌,
}
use atum.Ladder.{Semver}

-- `kube.Node`, as far as the wait reads it.
pub record ClusterNode : Type 0 where
  pub unschedulable : Bool
  pub kubelet_version : Text
  pub ready : Bool

-- `kube.Pod`, as far as the wait reads it.
pub record Pod : Type 0 where
  pub phase : Text
  pub deleting : Bool
  pub ready : Bool

-- `kube.PodPage`
pub record PodPage : Type 0 where
  pub items : List Pod
  pub continuation : Text

-- The replies of one poll, `none` for an error: the version of the server, the nodes, and the pages of
-- pods in the order of the requests. After the last reply requests fail.
pub record Poll : Type 0 where
  pub version : Option Text
  pub nodes : Option (List ClusterNode)
  pub pages : List (Option PodPage)

-- `Succeeded` and `Failed`
pub succeeded : Pod → Bool
unfolding str_eq
succeeded p = str_eq p.phase (text "Succeeded")

pub failed : Pod → Bool
unfolding str_eq
failed p = str_eq p.phase (text "Failed")

-- The test on a pod for which the poll is given up.
pub unsettled : Pod → Bool
unfolding succeeded failed
unsettled p = p.deleting || failed p || (not (succeeded p) && not p.ready)

pub any_unsettled : List Pod → Bool
unfolding unsettled
any_unsettled [] = false
any_unsettled (p ∷ ps) = unsettled p || any_unsettled ps

-- The loop over the pages, with the number of pods seen.
pub settled_pages : ℕ → List (Option PodPage) → Bool
unfolding any_unsettled str_eq
settled_pages seen [] = false
settled_pages seen (none ∷ pages) = false
settled_pages seen (some page ∷ pages) =
    let count = seen + length page.items in
    let rest = settled_pages count pages in
    if any_unsettled page.items
    then false
    else if str_eq page.continuation []
    then not (count == 0)
    else rest

module _ {V C : Type 0} (lib : Semver V C) where
  pub stable_print : V → Option Text
  unfolding str_eq
  stable_print v =
      if str_eq (lib.prerelease v) [] && str_eq (lib.metadata v) []
      then some (lib.print v)
      else none

  -- `canonicalKubernetesVersion`
  unfoldable pub canonical_kubernetes_version : Text → Option Text
  unfolding stable_print trim_prefix
  canonical_kubernetes_version raw = elim (lib.new_version (trim_prefix raw (text "v"))) [
    | none ↦ none
    | some v ↦ stable_print v
  ]

  -- Whether a version that is read is the wanted one.
  pub reports : Text → Text → Bool
  unfolding canonical_kubernetes_version str_eq
  reports exact raw = elim (canonical_kubernetes_version raw) [
    | none ↦ false
    | some actual ↦ str_eq actual exact
  ]

  -- The cases of the loop over the nodes: the last of them counts a ready node.
  pub counts : Text → ClusterNode → Bool
  unfolding reports
  counts exact n =
      if n.unschedulable
      then false
      else if not n.ready
      then false
      else reports exact n.kubelet_version

  pub ready_nodes : Text → List ClusterNode → ℕ
  unfolding counts
  ready_nodes exact [] = 0
  ready_nodes exact (n ∷ ns) =
      let rest = ready_nodes exact ns in if counts exact n then rest + 1 else rest

  pub nodes_ready : Text → Option (List ClusterNode) → Bool
  unfolding ready_nodes
  nodes_ready exact none = false
  nodes_ready exact (some ns) = not (length ns == 0) && ready_nodes exact ns == length ns

  pub version_ready : Text → Option Text → Bool
  unfolding reports
  version_ready exact none = false
  version_ready exact (some raw) = reports exact raw

  -- The condition that `waitHealthy` polls.
  unfoldable pub healthy : Text → Poll → Bool
  unfolding version_ready nodes_ready settled_pages
  healthy exact poll =
      version_ready exact poll.version && nodes_ready exact poll.nodes && settled_pages 0 poll.pages

  -- `waitHealthy`: whether it returns without an error, given the polls that are made until the
  -- timeout or the end of the context.
  unfoldable pub wait_healthy : Text → List Poll → Bool
  unfolding healthy
  wait_healthy exact [] = false
  wait_healthy exact (poll ∷ polls) =
      let rest = wait_healthy exact polls in if healthy exact poll then true else rest
