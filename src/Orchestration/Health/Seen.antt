-- ===== src/Orchestration/Health/Seen.antt =====
-- What a wait for a healthy cluster has seen when it returns.
use atum.Base.{
  ℕ, zero, suc, ◌+◌, ◌<◌, ◌≤◌, true, false, Option, none, some, List, [], ◌∷◌, Text, str_eq,
  str_eq_iff, length, get_elem?, ◌≡◌, ◌↔◌, refl, sym, ap, subst, inl, inr, Bool-cases,
  some_injective, arith,
}
use atum.Ladder.{Semver}
use atum.Orchestration.Health.{
  ClusterNode, Pod, Poll, canonical_kubernetes_version, reports, counts, ready_nodes, nodes_ready,
  version_ready, healthy, wait_healthy,
}
use atum.Orchestration.Health.Pods.{
  All, IsSettled, Lists, settled_pages_sound, settled_pages_complete,
}

module _ {V C : Type 0} (lib : Semver V C) where
  -- A node that is up: it takes pods, is ready, and its kubelet has the version.
  pub record IsUp (exact : Text) (n : ClusterNode) : Type 0 where
    pub schedulable : n.unschedulable ≡ false
    pub is_ready : n.ready ≡ true
    pub same_version : canonical_kubernetes_version lib n.kubelet_version ≡ some exact

  -- A poll that finds a healthy cluster: the server has the version, there are nodes and all are up,
  -- and there are pods, all listed and settled.
  pub record IsHealthy (exact : Text) (poll : Poll) : Type 0 where
    pub server :
        (raw : Text) × (poll.version ≡ some raw)
        × (canonical_kubernetes_version lib raw ≡ some exact)
    pub all_nodes :
        (ns : List ClusterNode) × (poll.nodes ≡ some ns) × (0 < length ns) × All (IsUp exact) ns
    pub all_pods : (ps : List Pod) × Lists poll.pages ps × All IsSettled ps × (0 < length ps)

  reports_iff :
      (exact raw : Text)
      → (reports lib exact raw ≡ true) ↔ (canonical_kubernetes_version lib raw ≡ some exact)
  unfolding reports
  reports_iff exact raw = split (canonical_kubernetes_version lib raw)
    where
      split :
          (o : Option Text)
          → ((elim o [ none ↦ false | some actual ↦ str_eq actual exact ]) ≡ true)
            ↔ (o ≡ some exact)
      split none = (λ h. cc, λ h. cc)
      split (some actual) = (
        λ h. ap some ((str_eq_iff actual exact).0 h),
        λ h. (str_eq_iff actual exact).1 (some_injective actual exact h),
      )

  counts_iff : (exact : Text) (n : ClusterNode) → (counts lib exact n ≡ true) ↔ IsUp exact n
  unfolding counts
  counts_iff exact n = (
    λ h. record {
      schedulable = ground (arith, h);
      is_ready = ground (arith, h);
      same_version = (reports_iff exact n.kubelet_version).0 (ground (arith, h));
    },
    λ up. ground (
      arith,
      up.schedulable,
      up.is_ready,
      (reports_iff exact n.kubelet_version).1 up.same_version,
    ),
  )

  ready_nodes-le : (exact : Text) (ns : List ClusterNode) → ready_nodes lib exact ns ≤ length ns
  unfolding ready_nodes
  ready_nodes-le exact [] = omega arith
  ready_nodes-le exact (n ∷ ns) = ground (arith, ready_nodes-le exact ns)

  ready_nodes_iff :
      (exact : Text) (ns : List ClusterNode)
      → (ready_nodes lib exact ns ≡ length ns) ↔ All (IsUp exact) ns
  unfolding ready_nodes
  ready_nodes_iff exact [] = (λ h. tt, λ h. refl)
  ready_nodes_iff exact (n ∷ ns) = (
    λ h. elim (Bool-cases (counts lib exact n)) [
      | inl up ↦ ((counts_iff exact n).0 up, (ready_nodes_iff exact ns).0 (ground (arith, h, up)))
      | inr down ↦ absurd (ground (arith, h, down, ready_nodes-le exact ns))
    ],
    λ h. ground (arith, (counts_iff exact n).1 h.0, (ready_nodes_iff exact ns).1 h.1),
  )

  healthy-IsHealthy :
      (exact : Text) (poll : Poll) → healthy lib exact poll ≡ true → IsHealthy exact poll
  unfolding healthy version_ready nodes_ready
  healthy-IsHealthy exact poll h = record {
    server = server poll.version refl (ground (arith, h));
    all_nodes = nodes poll.nodes refl (ground (arith, h));
    all_pods = counted (settled_pages_sound 0 poll.pages (ground (arith, h)));
  }
    where
      counted :
          ((ps : List Pod) × Lists poll.pages ps × All IsSettled ps × (0 < 0 + length ps))
          → (ps : List Pod) × Lists poll.pages ps × All IsSettled ps × (0 < length ps)
      counted (ps, listed, settled, some_pods) = (ps, listed, settled, omega arith)

      server :
          (o : Option Text)
          → poll.version ≡ o
          → version_ready lib exact o ≡ true
          → (raw : Text) × (poll.version ≡ some raw)
            × (canonical_kubernetes_version lib raw ≡ some exact)
      server none e k = cc
      server (some raw) e k = (raw, e, (reports_iff exact raw).0 k)

      nodes :
          (o : Option (List ClusterNode))
          → poll.nodes ≡ o
          → nodes_ready lib exact o ≡ true
          → (ns : List ClusterNode) × (poll.nodes ≡ some ns) × (0 < length ns) × All (IsUp exact) ns
      nodes none e k = cc
      nodes (some ns) e k =
          (ns, e, ground (arith, k), (ready_nodes_iff exact ns).0 (ground (arith, k)))

  IsHealthy-healthy :
      (exact : Text) (poll : Poll) → IsHealthy exact poll → healthy lib exact poll ≡ true
  unfolding healthy version_ready nodes_ready
  IsHealthy-healthy exact poll is =
      let (raw, e, same) = is.server in
      let (ns, d, some_nodes, up) = is.all_nodes in
      let (ps, listed, settled, some_pods) = is.all_pods in
      rw (e, d, settled_pages_complete 0 poll.pages ps listed settled (omega arith))
        (ground
          (arith, (reports_iff exact raw).1 same, some_nodes, (ready_nodes_iff exact ns).1 up))

  -- A wait returns without an error exactly if one of the polls that it makes before it gives up finds
  -- a healthy cluster: the server and every kubelet report the version, there are nodes and all of
  -- them are ready and not cordoned, and there are system pods, all listed and settled.
  pub wait_healthy_iff :
      (exact : Text) (polls : List Poll)
      → (wait_healthy lib exact polls ≡ true)
        ↔ ((i : ℕ) × (poll : Poll) × (get_elem? polls i ≡ some poll) × IsHealthy exact poll)
  unfolding wait_healthy
  wait_healthy_iff exact [] = (λ h. cc, λ (i, poll, at, is). nowhere i poll at)
    where
      nowhere :
          (i : ℕ) (poll : Poll) → get_elem? [] i ≡ some poll → wait_healthy lib exact [] ≡ true
      nowhere i poll h = cc
  wait_healthy_iff exact (poll ∷ polls) = (
    found (wait_healthy_iff exact polls).0,
    λ (i, seen, at, is). returns i seen (wait_healthy_iff exact polls).1 at is,
  )
    where
      found :
          (wait_healthy lib exact polls ≡ true
            → (i : ℕ) × (seen : Poll) × (get_elem? polls i ≡ some seen) × IsHealthy exact seen)
          → wait_healthy lib exact (poll ∷ polls) ≡ true
          → (i : ℕ) × (seen : Poll) × (get_elem? (poll ∷ polls) i ≡ some seen)
            × IsHealthy exact seen
      found later h = elim (Bool-cases (healthy lib exact poll)) [
        | inl now ↦ (0, poll, refl, healthy-IsHealthy exact poll now)
        | inr unfit ↦
            let (i, seen, at, is) = later (ground (arith, h, unfit)) in (suc i, seen, at, is)
      ]

      returns :
          (i : ℕ) (seen : Poll)
          → (((j : ℕ) × (p : Poll) × (get_elem? polls j ≡ some p) × IsHealthy exact p)
              → wait_healthy lib exact polls ≡ true)
          → get_elem? (poll ∷ polls) i ≡ some seen
          → IsHealthy exact seen
          → wait_healthy lib exact (poll ∷ polls) ≡ true
      returns zero seen later at is = ground (
        arith,
        IsHealthy-healthy exact poll
            (subst (IsHealthy exact) (sym (some_injective poll seen at)) is),
      )
      returns (suc i) seen later at is = ground (arith, later (i, seen, at, is))
