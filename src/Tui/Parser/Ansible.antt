-- ===== src/Tui/Parser/Ansible.antt =====
-- cli/tui/parser.go: the output of Ansible.
use atum.Base.{
  ℕ, Bool, true, false, not, ◌&&◌, ◌||◌, Option, none, some, List, [], ◌∷◌, ◌++◌, Text, text,
  has_prefix, contains, index, length, ltb, ◌==◌, if◌then◌else◌,
}
use atum.Tui.Resources.{
  State, running, complete, failed, Phase, orchestration, Stage, idle, cordon, drain, upgrade,
  uncordon, Parser, event, report, report_node,
}
use atum.Tui.Parser.Words.{
  ansible_command, ansible_task_detail, ansible_pull_detail, raw_host, up_to_or_all, last_index,
  between,
}
use atum.Tui.Parser.Seed.{Strings}

-- `progress.Target` and what the parser reads of `process.Command`
pub record Target : Type 0 where
  pub phase : Phase
  pub id : Text
  pub label : Text

pub record Command : Type 0 where
  pub name : Text
  pub args : List Text
  pub activity : Target

-- `ansibleActivity`
abbrev pub ansible_activity : Command → Target
ansible_activity command =
    if not (length command.activity.id == 0)
    then command.activity
    else record { phase = orchestration; id = text "activity"; label = text "Ansible activity" }

abbrev pub activity_event : Target → Text → Parser → Parser
activity_event target detail p = report (event target.phase target.id target.label detail running) p

abbrev pub activity_detail : Text → Option ℕ → Option ℕ → Text
activity_detail line (some opening) (some closing) =
    if ltb opening closing then between opening closing line else line
activity_detail line _ _ = line

-- `emitActivity`, when the timer fires
unfoldable pub emit_activity : Target → Parser → Parser
emit_activity target p =
    let q = record p { timer = false } in
    if length p.activity == 0
    then q
    else activity_event target
        (activity_detail p.activity (index p.activity (text "[")) (index p.activity (text "]"))) q

-- `ansibleNodeStageFor` a task in lower case
unfoldable pub ansible_node_stage_for : Text → Stage
unfolding contains
ansible_node_stage_for task =
    if contains task (text "uncordon")
    then uncordon
    else if contains task (text "cordon")
    then cordon
    else if contains task (text "drain")
    then drain
    else if contains task (text "kubeadm") && contains task (text "upgrade")
    then upgrade
    else idle

-- `startDetail` and `completion`
pub start_detail : Stage → Text
start_detail cordon = text "cordoning"
start_detail drain = text "draining workloads"
start_detail upgrade = text "upgrading Kubernetes components"
start_detail uncordon = text "validating and uncordoning"
start_detail idle = text "upgrading"

pub completion : Stage → State × Text
completion cordon = (running, text "cordoned; preparing to drain")
completion drain = (running, text "drained; upgrading components")
completion upgrade = (running, text "components upgraded; validating node")
completion uncordon = (complete, text "upgrade complete; schedulable")
completion idle = (running, text "upgrading")

abbrev pub is_cordon : Stage → Bool
is_cordon cordon = true
is_cordon _ = false

abbrev pub is_idle : Stage → Bool
is_idle idle = true
is_idle _ = false

abbrev pub retry_detail : Text → Option ℕ → Option ℕ → Text
retry_detail line (some opening) (some closing) =
    if ltb opening closing then text " " ++ between opening closing line else []
retry_detail line _ _ = []

-- What a result says of a node in a stage.
unfoldable pub node_result : Text → Text → Parser → Parser
unfolding has_prefix report_node start_detail completion
node_result host line p =
    if has_prefix line (text "fatal: [")
      || has_prefix line (text "failed: [")
      || has_prefix line (text "ASYNC FAILED on ")
    then report_node host failed (start_detail p.node_stage ++ text " failed") p
    else if has_prefix line (text "FAILED - RETRYING: [")
    then report_node host running
        (start_detail p.node_stage
          ++ (text "; retrying"
              ++ retry_detail line (last_index line (text "(")) (last_index line (text ")"))))
        p
    else if has_prefix line (text "ASYNC POLL on ")
    then report_node host running (start_detail p.node_stage ++ text "; waiting") p
    else report_node host (completion p.node_stage).0 (completion p.node_stage).1 p

-- A result that shows that draining has begun.
abbrev pub drains : Text → Parser → Parser
drains line p =
    if contains line (text "Drain node")
      || is_cordon p.node_stage && has_prefix line (text "ASYNC ")
    then record p { node_stage = drain }
    else p

abbrev pub staged_result : Text → Text → Parser → Parser
staged_result host line p = if is_idle p.node_stage then p else node_result host line p

module _ (strings : Strings) where
  abbrev pub accepted_host : Text → Text
  accepted_host raw = if length raw == 0 || ltb 253 (length raw) then [] else raw

  -- `ansibleResultHost`, empty where there is none
  unfoldable pub ansible_result_host : Text → Text
  unfolding raw_host
  ansible_result_host line =
      accepted_host
        (strings.trim_space (up_to_or_all (raw_host line) (index (raw_host line) (text " -> "))))

  -- `observeAnsibleResult`
  unfoldable pub observe_ansible_result : Text → Parser → Parser
  observe_ansible_result line p =
      let host = ansible_result_host line in
      if length host == 0 then p else staged_result host line (drains line p)

  -- A line of `ansible-playbook`. A task starts the activity timer, a pull stops it.
  unfoldable pub observe_ansible : Command → Text → Parser → Parser
  unfolding ansible_task_detail ansible_pull_detail
  observe_ansible command line p = elim (ansible_task_detail line) [
    | some detail ↦ record p {
      node_stage = ansible_node_stage_for (strings.to_lower detail);
      activity = line;
      timer = true;
    }
    | none ↦ elim (ansible_pull_detail line) [
      | some detail ↦
          activity_event (ansible_activity command) detail
            (record p { activity = []; timer = false })
      | none ↦ observe_ansible_result line p
    ]
  ]

-- The nodes that are active when a playbook ends, in the order of the Go map.
unfoldable pub finish_nodes : List Text → State → Text → Parser → Parser
finish_nodes [] state detail p = p
finish_nodes (host ∷ hosts) state detail p =
    finish_nodes hosts state detail (report_node host state detail p)

-- `finishCommand`; `ok` says that the command did not err.
unfoldable pub finish_command : Command → Bool → Parser → Parser
finish_command command ok p =
    if not (ansible_command command.name)
    then p
    else let q = record p { activity = []; node_stage = idle; timer = false } in
      record (finish_nodes p.active_nodes (if ok then complete else failed)
        (if ok then text "playbook complete; health check pending" else text "playbook failed") q) {
          active_nodes = [];
        }
