-- ===== src/Tui/Parser/Keeps.antt =====
-- Whatever a command prints, what the parser remembers stays consistent and bounded.
pub mod Memory
pub mod Playbook
pub mod Events
use atum.Base.{
  index-le, ◌+◌, ℕ, zero, Bool, true, false, not, ◌&&◌, ◌||◌, Option, none, some, List, [], ◌∷◌,
  Text, text, str_eq, has_prefix, index, length, ltb, ◌==◌, if◌then◌else◌, if_cases, ◌≡◌, refl, ap,
  subst, ◌∙◌, arith,
}
use atum.Tui.Resources.{
  idle, State, running, complete, Parser, Event, report, update_resource, report_node,
}
use atum.Tui.Resources.Invariant.{
  IsConsistent, update_resource-IsConsistent, report_node-IsConsistent,
}
use atum.Tui.Resources.Sets.{HasNoRepeat}
use atum.Tui.Parser.Words.{
  ansible_task_detail, ansible_pull_detail, ansible_command, terraform_command,
  terraform_plan_match, terraform_action_match, ascii_lower,
}
use atum.Tui.Parser.Seed.{
  Strings, seed_message, seed_at, observe_seed_plane, report_seed_service, images, seed_plane_bytes,
}
use atum.Tui.Parser.Ansible.{
  Command, activity_event, ansible_activity, ansible_node_stage_for, node_result, drains,
  staged_result, ansible_result_host, observe_ansible_result, observe_ansible, finish_nodes,
  finish_command,
}
use atum.Tui.Parser.Terraform.{
  TerraformEvent, resource_event, terraform_event, provisioning, accepted_event, handled, decoded,
  observe_terraform_event,
}
use atum.Tui.Parser.{
  strip_from, observe_seed_or_plain, observe_plain, after_event, observe_line, observe,
}
use atum.Tui.Parser.Keeps.Memory.{
  KeepsLength, Keeps, KeepsIf, KeepsPairIf, LowersAscii, is_ascii, length-to_lower, alike,
  if_IsConsistent, report-IsConsistent,
}
use atum.Tui.Parser.Keeps.Playbook.{ansible-IsConsistent}
use atum.Tui.Parser.Keeps.Events.{seed_plane-KeepsPair, terraform-KeepsPair}

plain-IsConsistent :
    (line : Text) (p : Parser) → IsConsistent p → IsConsistent (observe_plain line p)
unfolding observe_plain
plain-IsConsistent line p c =
    if_IsConsistent _ _ _ (alike p _ refl refl c)
      (planned (terraform_plan_match line) (terraform_action_match line))
  where
    acted :
        (q : Option (Text × Text))
        → IsConsistent (elim q [
          | none ↦ p
          | some (address, action) ↦
              update_resource address
                (if str_eq action (text "Creation complete")
                    || str_eq action (text "Destruction complete")
                  then complete
                  else running)
                (ascii_lower action)
                p
        ])
    acted none = c
    acted (some (address, action)) = update_resource-IsConsistent address _ (ascii_lower action) p c

    planned :
        (o : Option Text) (q : Option (Text × Text))
        → IsConsistent (elim o [
          | some address ↦ update_resource address running (text "planned") p
          | none ↦ elim q [
            | none ↦ p
            | some (address, action) ↦
                update_resource address
                  (if str_eq action (text "Creation complete")
                      || str_eq action (text "Destruction complete")
                    then complete
                    else running)
                  (ascii_lower action)
                  p
          ]
        ])
    planned none q = acted q
    planned (some address) q = update_resource-IsConsistent address running (text "planned") p c

module _ (strings : Strings) (parse : Text → Option TerraformEvent) where
  -- The line that is observed.
  abbrev pub trimmed : Text → Text
  trimmed raw = strings.trim_space (strip_from zero raw)

  module _ (G : Type 0) where
    observe-KeepsIf :
        (command : Command) (raw : Text) (p : Parser)
        → (G → length (strings.to_lower (trimmed raw)) ≡ length (trimmed raw))
        → ((e : TerraformEvent)
            → parse (trimmed raw) ≡ some e
            → G
            → length (strings.to_lower e.hook_output) ≡ length e.hook_output)
        → IsConsistent p
        → KeepsIf G (observe strings parse command raw p)
    unfolding observe observe_line
    observe-KeepsIf command raw p line_length event_length c =
        line (strings.trim_space (strip_from zero raw)) refl
      where
        plain :
            (l : Text) (o : Option (Bool × Parser))
            → KeepsPairIf G o
            → KeepsIf G (observe_seed_or_plain strings parse l o)
        plain l none k = k
        plain l (some (b, q)) k = plain-IsConsistent l q k

        event :
            (l : Text) (o : Option (Bool × Parser))
            → (G → length (strings.to_lower l) ≡ length l)
            → KeepsPairIf G o
            → KeepsIf G (after_event strings parse l o)
        event l none same k = k
        event l (some (true, q)) same k = k
        event l (some (false, q)) same k =
            plain l (observe_seed_plane strings l q) (seed_plane-KeepsPair strings G l q same k)

        line : (l : Text) → trimmed raw ≡ l → KeepsIf G (observe_line strings parse command l p)
        line [] same = c
        line (x ∷ l) same =
            if_cases (KeepsIf G) (ansible_command command.name)
              (λ _. ansible-IsConsistent strings command (x ∷ l) p c)
              (λ _.
                if_cases (KeepsIf G) (not (terraform_command command.name)) (λ _. c)
                  (λ _.
                    event (x ∷ l) (observe_terraform_event strings parse command (x ∷ l) p)
                      (subst (λ t. G → length (strings.to_lower t) ≡ length t) same line_length)
                      (terraform-KeepsPair strings G parse command (x ∷ l) p
                        (λ e d. event_length e (ap parse same ∙ d)) c)))

  -- A memory that is consistent and bounded stays so, whatever line a command prints, unless the
  -- parser panics, and it panics only where making a text lower-case changes a length.
  pub observe-Keeps :
      (command : Command) (raw : Text) (p : Parser)
      → IsConsistent p
      → Keeps strings (observe strings parse command raw p)
  observe-Keeps command raw p c =
      observe-KeepsIf (KeepsLength strings) command raw p (λ same. same (trimmed raw))
        (λ e _ same. same e.hook_output) c

  -- From a consistent memory the parser returns with a consistent one for any line that is ASCII once
  -- it is stripped and trimmed, and whose event, if it is one, has an ASCII output: where ASCII is made
  -- lower-case letter by letter, whatever becomes of other texts.
  pub observe-returns :
      (command : Command) (raw : Text) (p : Parser)
      → LowersAscii strings
      → is_ascii (trimmed raw) ≡ true
      → ((e : TerraformEvent) → parse (trimmed raw) ≡ some e → is_ascii e.hook_output ≡ true)
      → IsConsistent p
      → (q : Parser) × (observe strings parse command raw p ≡ some q) × IsConsistent q
  observe-returns command raw p lowers line_ascii event_ascii c =
      found (observe strings parse command raw p) (
        observe-KeepsIf (Unit {0}) command raw p
          (λ _. length-to_lower strings (trimmed raw) lowers line_ascii)
          (λ e d _. length-to_lower strings e.hook_output lowers (event_ascii e d)) c)
    where
      found :
          (o : Option Parser) → KeepsIf (Unit {0}) o → (q : Parser) × (o ≡ some q) × IsConsistent q
      found none k = absurd (k tt)
      found (some q) k = (q, refl, k)
