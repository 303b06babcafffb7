-- ===== src/Tui/Tests.antt =====
-- Runs of the text interface's code.
use atum.Base.{
  true, false, not, ◌&&◌, leb, ◌==◌, Option, none, some, [], ◌∷◌, ◌++◌, Text, text, length,
  if◌then◌else◌, ◌≡◌, ◌≢◌, refl, arith,
}
use atum.Tui.Tail.{Encoding, new_log_tail, write}
use atum.Tui.Tail.Refine.{IsRing, log_of, log_from}
use atum.Tui.Tail.Write.{write-log_from}
use atum.Tui.Observer.{Observer, line_limit}
use atum.Tui.Observer as Lines
use atum.Tui.Observer.Chunks.{write-line}
use atum.Tui.Resources.{
  running, complete, orchestration, ResourceSet, aggregate_state, Parser, new_output_parser,
  update_resource, report_node, has,
}
use atum.Tui.Resources.Sets.{IsSubset, HasNoRepeat}
use atum.Tui.Resources.Invariant.{
  IsTracked, IsConsistent, AreTracked, aggregate_state-complete, update_resource-IsConsistent,
  report_node-IsConsistent,
}
use atum.Tui.Parser.Words.{ascii_lower, ansible_command}
use atum.Tui.Parser.Seed.{Strings}
use atum.Tui.Parser.Ansible.{Command, finish_command}
use atum.Tui.Parser.Terraform.{TerraformEvent}
use atum.Tui.Parser.{observe, strip_from}
use atum.Tui.Parser.Keeps.Memory.{Keeps, is_ascii}
use atum.Tui.Parser.Keeps.{observe-Keeps, observe-returns, trimmed}
use atum.Tui.Parser.Finish.{finished_playbook, finish_command-reports}

abbrev plain_encoding : Encoding
plain_encoding = record { strip = λ s. s; runes = λ s. s; encode = λ s. s }

abbrev two_lines : Text
two_lines = text "one" ++ (13 ∷ 10 ∷ text "two" ++ (10 ∷ text "rest"))

new_log_tail-IsRing : IsRing new_log_tail
new_log_tail-IsRing = record {
  start = omega arith;
  count = omega arith;
  filling = λ _. refl;
  partial = omega arith;
}

write-log_from_example :
    IsRing (write plain_encoding two_lines new_log_tail)
    × (log_of (write plain_encoding two_lines new_log_tail)
        ≡ log_from plain_encoding false [] two_lines (log_of new_log_tail))
write-log_from_example = write-log_from plain_encoding two_lines new_log_tail new_log_tail-IsRing

abbrev new_observer : Observer
new_observer = record { buffer = []; drop = false; observed = [] }

write-line_example : (Lines.write (text "one" ++ (10 ∷ [])) new_observer).1 ≡ (
    if not (length (text "one") == 0) && leb (length (text "one")) line_limit
    then record new_observer { observed = text "one" ∷ [] }
    else new_observer)
write-line_example = write-line (text "one") new_observer refl refl refl

abbrev node : Text
node = text "libvirt_domain.node[0]"

abbrev one_set : ResourceSet
one_set = record { expected = node ∷ []; complete = node ∷ []; failed = [] }

one_set-IsTracked : IsTracked one_set
unfolding HasNoRepeat has
one_set-IsTracked = record {
  expected_once = (refl, tt);
  complete_once = (refl, tt);
  failed_once = tt;
  complete_expected = λ x h. h;
  failed_expected = λ x h. cc (h);
  disjoint = λ x h. refl;
  bounded = omega arith;
}

aggregate_state-complete_example :
    (aggregate_state one_set ≡ complete
      → (length one_set.expected ≢ 0) × IsSubset one_set.expected one_set.complete)
    × (length one_set.expected ≢ 0
        → IsSubset one_set.expected one_set.complete
        → aggregate_state one_set ≡ complete)
aggregate_state-complete_example = aggregate_state-complete one_set one_set-IsTracked

new_output_parser-IsConsistent : IsConsistent new_output_parser
unfolding AreTracked HasNoRepeat
new_output_parser-IsConsistent = record {
  resources = tt;
  nodes_once = tt;
  nodes_bounded = omega arith;
}

update_resource-IsConsistent_example :
    IsConsistent (update_resource node running (text "creating") new_output_parser)
update_resource-IsConsistent_example =
    update_resource-IsConsistent node running (text "creating") new_output_parser
      new_output_parser-IsConsistent

report_node-IsConsistent_example :
    IsConsistent (report_node (text "node1") running (text "draining workloads") new_output_parser)
report_node-IsConsistent_example =
    report_node-IsConsistent (text "node1") running (text "draining workloads") new_output_parser
      new_output_parser-IsConsistent

abbrev ascii_strings : Strings
ascii_strings = record { to_lower = ascii_lower; trim_space = λ s. s; fields = λ s. s ∷ [] }

abbrev terraform : Command
terraform = record {
  name = text "/usr/bin/terraform";
  args = text "apply" ∷ [];
  activity = record { phase = orchestration; id = []; label = [] };
}

abbrev playbook : Command
playbook = record terraform { name = text "ansible-playbook" }

abbrev no_event : Text → Option TerraformEvent
no_event _ = none

abbrev seed_line : Text
seed_line = text "Seed plane: forgejo=ready harbor=waiting"

observe-Keeps_example :
    Keeps ascii_strings (observe ascii_strings no_event terraform seed_line new_output_parser)
observe-Keeps_example =
    observe-Keeps ascii_strings no_event terraform seed_line new_output_parser
      new_output_parser-IsConsistent

seed_ascii : is_ascii (trimmed ascii_strings no_event seed_line) ≡ true
unfolding strip_from
seed_ascii = refl

observe-returns_example :
    (q : Parser) × (observe ascii_strings no_event terraform seed_line new_output_parser ≡ some q)
    × IsConsistent q
observe-returns_example =
    observe-returns ascii_strings no_event terraform seed_line new_output_parser (λ s h. refl)
      seed_ascii (λ e d. cc (d)) new_output_parser-IsConsistent

abbrev busy : Parser
busy = report_node (text "node1") running (text "draining workloads") new_output_parser

busy-IsConsistent : IsConsistent busy
busy-IsConsistent =
    report_node-IsConsistent (text "node1") running (text "draining workloads") new_output_parser
      new_output_parser-IsConsistent

finish_command-reports_example :
    (ansible_command playbook.name ≡ true
      → finish_command playbook true busy ≡ finished_playbook true busy)
    × (ansible_command playbook.name ≡ false → finish_command playbook true busy ≡ busy)
    × IsConsistent (finish_command playbook true busy)
finish_command-reports_example = finish_command-reports playbook true busy busy-IsConsistent
