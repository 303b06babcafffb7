-- ===== src/Tui/Parser/Keeps/Playbook.antt =====
-- The output of Ansible keeps the memory consistent.
use atum.Base.{true, false, Option, none, some, [], Text, refl}
use atum.Tui.Resources.{Parser}
use atum.Tui.Resources.Invariant.{IsConsistent, report_node-IsConsistent}
use atum.Tui.Parser.Words.{ansible_task_detail, ansible_pull_detail}
use atum.Tui.Parser.Seed.{Strings}
use atum.Tui.Parser.Ansible.{
  Command, activity_event, ansible_activity, ansible_node_stage_for, node_result, drains,
  staged_result, ansible_result_host, observe_ansible_result, observe_ansible,
}
use atum.Tui.Parser.Keeps.Memory.{alike, if_IsConsistent}

node_result-IsConsistent :
    (host line : Text) (p : Parser) → IsConsistent p → IsConsistent (node_result host line p)
unfolding node_result
node_result-IsConsistent host line p c = search (if_IsConsistent, report_node-IsConsistent)

module _ (strings : Strings) where
  result-IsConsistent :
      (line : Text) (p : Parser)
      → IsConsistent p
      → IsConsistent (observe_ansible_result strings line p)
  unfolding observe_ansible_result
  result-IsConsistent line p c = if_IsConsistent _ _ _ c (staged (drains line p) drained)
    where
      drained : IsConsistent (drains line p)
      drained = if_IsConsistent _ _ _ (alike p _ refl refl c) c

      staged :
          (q : Parser)
          → IsConsistent q
          → IsConsistent (staged_result (ansible_result_host strings line) line q)
      staged q d = search (if_IsConsistent, node_result-IsConsistent)

  pub ansible-IsConsistent :
      (command : Command) (line : Text) (p : Parser)
      → IsConsistent p
      → IsConsistent (observe_ansible strings command line p)
  unfolding observe_ansible
  ansible-IsConsistent command line p c = task (ansible_task_detail line) (ansible_pull_detail line)
    where
      pull :
          (o : Option Text)
          → IsConsistent (elim o [
            | some detail ↦
                activity_event
                  (ansible_activity command)
                  detail
                  (record p { activity = []; timer = false })
            | none ↦ observe_ansible_result strings line p
          ])
      pull none = result-IsConsistent line p c
      pull (some d) = alike p _ refl refl c

      task :
          (o q : Option Text)
          → IsConsistent (elim o [
            | some detail ↦ record p {
              node_stage = ansible_node_stage_for (strings.to_lower detail);
              activity = line;
              timer = true;
            }
            | none ↦ elim q [
              | some detail ↦
                  activity_event
                    (ansible_activity command)
                    detail
                    (record p { activity = []; timer = false })
              | none ↦ observe_ansible_result strings line p
            ]
          ])
      task none q = pull q
      task (some d) q = alike p _ refl refl c
