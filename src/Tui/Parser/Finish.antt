-- ===== src/Tui/Parser/Finish.antt =====
-- The end of a command, `finishCommand` of cli/tui/parser.go.
use atum.Base.{
  Bool, true, false, not, List, [], ◌∷◌, ◌++◌, append-nil, append_assoc, map, Text, text,
  str_eq_refl, if◌then◌else◌, if_cases, ◌≡◌, refl, sym, ap, subst, ◌∙◌, arith,
}
use atum.Tui.Resources.{
  State, complete, failed, idle, Parser, Event, has, without_elem, is_running, node_event,
  report_node,
}
use atum.Tui.Resources.Sets.{HasNoRepeat}
use atum.Tui.Resources.Invariant.{IsConsistent}
use atum.Tui.Parser.Words.{ansible_command}
use atum.Tui.Parser.Ansible.{Command, finish_nodes, finish_command}

without_elem-absent : (x : Text) (s : List Text) → has x s ≡ false → without_elem x s ≡ s
unfolding has without_elem
without_elem-absent x [] h = refl
without_elem-absent x (y ∷ s) h = ground (arith, h, without_elem-absent x s)

without_elem-head : (x : Text) (s : List Text) → has x s ≡ false → without_elem x (x ∷ s) ≡ s
unfolding without_elem
without_elem-head x s h = ground (arith, str_eq_refl x, without_elem-absent x s h)

-- The first of the active nodes is reported, and no longer active.
report_first :
    (host : Text) (hosts : List Text) (state : State) (detail : Text) (p : Parser)
    → is_running state ≡ false
    → has host hosts ≡ false
    → report_node host state detail (record p { active_nodes = host ∷ hosts })
      ≡ record p { active_nodes = hosts; events = p.events ++ node_event host state detail ∷ [] }
unfolding report_node has
report_first host hosts state detail p stops new =
    rw (str_eq_refl host, stops)
      (ap
        (λ l. record p { active_nodes = l; events = p.events ++ node_event host state detail ∷ [] })
        (without_elem-head host hosts new))

-- The events by which nodes are reported.
abbrev pub node_events : List Text → State → Text → List Event
node_events hosts state detail = map (λ host. node_event host state detail) hosts

finish_nodes_lem :
    (hosts : List Text) (state : State) (detail : Text) (p : Parser)
    → is_running state ≡ false
    → HasNoRepeat hosts
    → finish_nodes hosts state detail (record p { active_nodes = hosts })
      ≡ record p { active_nodes = []; events = p.events ++ node_events hosts state detail }
unfolding finish_nodes HasNoRepeat
finish_nodes_lem [] state detail p stops once =
    ap (λ l. record p { active_nodes = []; events = l }) (sym (append-nil p.events))
finish_nodes_lem (host ∷ hosts) state detail p stops once =
    ap (finish_nodes hosts state detail) (report_first host hosts state detail p stops once.0)
    ∙ finish_nodes_lem hosts state detail
        (record p { events = p.events ++ node_event host state detail ∷ [] }) stops once.1
    ∙ ap (λ l. record p { active_nodes = []; events = l })
        (append_assoc p.events (node_event host state detail ∷ []) (node_events hosts state detail))

-- How a playbook has ended, as its nodes are reported.
abbrev pub end_state : Bool → State
end_state success = if success then complete else failed

abbrev pub end_detail : Bool → Text
end_detail success =
    if success then text "playbook complete; health check pending" else text "playbook failed"

abbrev pub finished_playbook : Bool → Parser → Parser
finished_playbook success p = record p {
  activity = [];
  timer = false;
  node_stage = idle;
  active_nodes = [];
  events = p.events ++ node_events p.active_nodes (end_state success) (end_detail success);
}

-- The end of a playbook reports every node that is active once, as complete or as failed, and clears the
-- activity, its timer, the stage and the active nodes; nothing else changes, and the memory stays consistent.
-- The end of another command changes nothing. The memory is consistent before.
pub finish_command-reports :
    (command : Command) (success : Bool) (p : Parser)
    → IsConsistent p
    → (ansible_command command.name ≡ true
        → finish_command command success p ≡ finished_playbook success p)
      × (ansible_command command.name ≡ false → finish_command command success p ≡ p)
      × IsConsistent (finish_command command success p)
unfolding finish_command HasNoRepeat
finish_command-reports command success p c = (λ h. rw h ended, λ h. rw h refl, consistent)
  where
    stops : (b : Bool) → is_running (end_state b) ≡ false
    stops true = refl
    stops false = refl

    ended :
        record (finish_nodes p.active_nodes
          (end_state success)
          (end_detail success)
          (record p { activity = []; node_stage = idle; timer = false })) { active_nodes = [] }
        ≡ finished_playbook success p
    ended =
        ap (λ (q : Parser). record q { active_nodes = [] })
          (finish_nodes_lem p.active_nodes (end_state success) (end_detail success)
            (record p { activity = []; node_stage = idle; timer = false }) (stops success)
            c.nodes_once)

    consistent : IsConsistent (finish_command command success p)
    consistent =
        if_cases IsConsistent (not (ansible_command command.name)) (λ _. c)
          (λ _.
            subst IsConsistent (sym ended)
              (record { resources = c.resources; nodes_once = tt; nodes_bounded = omega arith }))
