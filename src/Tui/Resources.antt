-- ===== src/Tui/Resources.antt =====
-- cli/tui/parser.go: what the parser remembers of resources and nodes, and reports of them. The events
-- are those of cli/progress.
pub mod Sets
pub mod Invariant
use atum.Base.{
  ℕ, suc, Bool, true, false, not, ◌&&◌, ◌||◌, Option, none, some, List, [], ◌∷◌, ◌++◌, Text, text,
  str_eq, has_prefix, length, ◌==◌, leb, if◌then◌else◌,
}

-- `progress.State` and `progress.Phase`
pub data State : Type 0 where
  pending running complete failed : State

pub data Phase : Type 0 where
  preflight credentials infrastructure orchestration platform updates : Phase

-- `progress.Event`; `Restart` and `Time` are set elsewhere.
pub record Event : Type 0 where
  pub phase : Phase
  pub id : Text
  pub label : Text
  pub detail : Text
  pub state : State
  pub current : ℕ
  pub total : ℕ
  pub bytes_current : ℕ
  pub bytes_total : ℕ

abbrev pub event : Phase → Text → Text → Text → State → Event
event phase id label detail state = record {
  phase = phase;
  id = id;
  label = label;
  detail = detail;
  state = state;
  current = 0;
  total = 0;
  bytes_current = 0;
  bytes_total = 0;
}

-- `observedResourceLimit`
abbrev pub resource_limit : ℕ
resource_limit = 512

-- A Go set is a list without repetitions: membership, insertion, `delete`.
unfoldable pub has : Text → List Text → Bool
has x [] = false
has x (y ∷ s) = str_eq x y || has x s

unfoldable pub with_elem : Text → List Text → List Text
unfolding has
with_elem x s = if has x s then s else x ∷ s

unfoldable pub without_elem : Text → List Text → List Text
without_elem x [] = []
without_elem x (y ∷ s) = let rest = without_elem x s in if str_eq x y then rest else y ∷ rest

-- `resourceSet`
pub record ResourceSet : Type 0 where
  pub expected : List Text
  pub complete : List Text
  pub failed : List Text

abbrev pub empty_set : ResourceSet
empty_set = record { expected = []; complete = []; failed = [] }

-- The sets after one more state of an address that is expected.
unfoldable pub mark : Text → State → ResourceSet → ResourceSet
mark address complete s = record {
  expected = with_elem address s.expected;
  complete = with_elem address s.complete;
  failed = without_elem address s.failed;
}
mark address failed s = record {
  expected = with_elem address s.expected;
  complete = without_elem address s.complete;
  failed = with_elem address s.failed;
}
mark address _ s = record {
  expected = with_elem address s.expected;
  complete = without_elem address s.complete;
  failed = without_elem address s.failed;
}

-- `aggregateState`
unfoldable pub aggregate_state : ResourceSet → State
aggregate_state s =
    if not (length s.failed == 0)
    then failed
    else if not (length s.expected == 0) && length s.complete == length s.expected
    then complete
    else running

-- What an address stands for: its id, its label, and whether it is counted.
pub record Resource : Type 0 where
  pub id : Text
  pub label : Text
  pub aggregate : Bool

-- `terraformResource`, `none` for an empty id
unfoldable pub terraform_resource : Text → Option Resource
unfolding has_prefix
terraform_resource address =
    if has_prefix address (text "libvirt_network.")
    then some (record { id = text "network"; label = text "Network"; aggregate = false })
    else if has_prefix address (text "libvirt_domain.load_balancer")
    then some
        (record { id = text "load-balancer"; label = text "Load balancer"; aggregate = false })
    else if has_prefix address (text "libvirt_domain.bastion")
    then some (record { id = text "bastion"; label = text "Bastion"; aggregate = false })
    else if has_prefix address (text "libvirt_domain.node[")
    then some (record { id = text "nodes"; label = text "Nodes"; aggregate = true })
    else if has_prefix address (text "libvirt_volume.")
        || has_prefix address (text "libvirt_cloudinit_disk.")
    then some (record { id = text "storage"; label = text "Storage"; aggregate = true })
    else none

-- A Go map from ids: the first entry of an id counts.
unfoldable pub set_of : Text → List (Text × ResourceSet) → ResourceSet
set_of id [] = empty_set
set_of id ((i, s) ∷ m) = if str_eq id i then s else set_of id m

unfoldable pub put_set : Text → ResourceSet → List (Text × ResourceSet) → List (Text × ResourceSet)
put_set id s [] = (id, s) ∷ []
put_set id s ((i, t) ∷ m) = if str_eq id i then (i, s) ∷ m else (i, t) ∷ put_set id s m

-- `ansibleNodeStage`
pub data Stage : Type 0 where
  idle cordon drain upgrade uncordon : Stage

-- `outputParser`: `timer` says whether the activity timer runs; `events` are those reported, the
-- first one first.
pub record Parser : Type 0 where
  pub resources : List (Text × ResourceSet)
  pub seed_activity : Bool
  pub activity : Text
  pub timer : Bool
  pub node_stage : Stage
  pub active_nodes : List Text
  pub events : List Event

-- `newOutputParser`
abbrev pub new_output_parser : Parser
new_output_parser = record {
  resources = [];
  seed_activity = false;
  activity = [];
  timer = false;
  node_stage = idle;
  active_nodes = [];
  events = [];
}

abbrev pub report : Event → Parser → Parser
report e p = record p { events = p.events ++ (e ∷ []) }

abbrev pub is_running : State → Bool
is_running running = true
is_running _ = false

abbrev pub is_complete : State → Bool
is_complete complete = true
is_complete _ = false

abbrev pub aggregate_event : Resource → Text → ResourceSet → Event
aggregate_event r detail s =
    let e = event infrastructure r.id r.label detail (aggregate_state s) in
    if r.aggregate then record e { current = length s.complete; total = length s.expected } else e

-- The sets of a known resource.
unfoldable pub update_known : Resource → Text → State → Text → Parser → Parser
update_known r address state detail p =
    let s = set_of r.id p.resources in
    if not (has address s.expected) && leb resource_limit (length s.expected)
    then record p { resources = put_set r.id s p.resources }
    else let t = mark address state s in
      report (aggregate_event r detail t) (record p { resources = put_set r.id t p.resources })

abbrev pub update_of : Option Resource → Text → State → Text → Parser → Parser
update_of none address state detail p = p
update_of (some r) address state detail p = update_known r address state detail p

-- `updateResource`
unfoldable pub update_resource : Text → State → Text → Parser → Parser
update_resource address state detail p =
    if has_prefix address (text "terraform_data.seed_plane")
    then if is_running state && p.seed_activity
      then p
      else report (event infrastructure (text "seed-harbor") (text "Seed Harbor") detail state)
          (report (event infrastructure (text "seed-forgejo") (text "Forgejo") detail state) p)
    else update_of (terraform_resource address) address state detail p

abbrev pub node_event : Text → State → Text → Event
node_event host state detail =
    event orchestration (text "node:" ++ host) (text "Node " ++ host) detail state

-- The event of a node, which is active while it runs.
abbrev pub reported : Text → State → Text → Parser → Parser
reported host state detail p =
    report (node_event host state detail)
      (if is_running state then p else record p { active_nodes = without_elem host p.active_nodes })

-- `reportNode`
unfoldable pub report_node : Text → State → Text → Parser → Parser
report_node host state detail p =
    if has host p.active_nodes
    then reported host state detail p
    else if is_complete state || leb resource_limit (length p.active_nodes)
    then p
    else reported host state detail (record p { active_nodes = host ∷ p.active_nodes })
