-- ===== src/Tui/Parser.antt =====
-- cli/tui/parser.go: `outputParser`, which reads progress from the output of Terraform and Ansible.
pub mod Words
pub mod Ansible
pub mod Terraform
pub mod Seed
pub mod Keeps
pub mod Finish
use atum.Base.{
  ℕ, zero, suc, ◌-◌, Bool, true, false, not, ◌&&◌, ◌||◌, Option, none, some, List, [], ◌∷◌, ◌++◌,
  Text, text, str_eq, has_prefix, length, leb, ◌==◌, if◌then◌else◌,
}
use atum.Tui.Resources.{
  State, running, complete, failed, Phase, infrastructure, Parser, event, report, update_resource,
}
use atum.Tui.Parser.Words.{
  ansible_command, terraform_command, terraform_plan_match, terraform_action_match, ascii_lower,
}
use atum.Tui.Parser.Ansible.{Command, observe_ansible}
use atum.Tui.Parser.Seed.{Strings, observe_seed_plane}
use atum.Tui.Parser.Terraform.{TerraformEvent, observe_terraform_event}

-- `ansiPattern`: the length of an escape sequence at the head, after its first two bytes.
abbrev pub final_length : Text → Option ℕ
final_length [] = none
final_length (c ∷ s) = if leb 64 c && leb c 126 then some 1 else none

abbrev pub one_more : Option ℕ → Option ℕ
one_more none = none
one_more (some n) = some (suc n)

pub middle_length : Text → Option ℕ
middle_length [] = none
middle_length (c ∷ s) =
    if leb 32 c && leb c 47 then one_more (middle_length s) else final_length (c ∷ s)

pub parameter_length : Text → Option ℕ
unfolding middle_length
parameter_length [] = none
parameter_length (c ∷ s) =
    if leb 48 c && leb c 63 then one_more (parameter_length s) else middle_length (c ∷ s)

abbrev pub sequence_length : Text → Option ℕ
sequence_length (a ∷ (b ∷ s)) =
    if a == 27 && b == b'[' then one_more (one_more (parameter_length s)) else none
sequence_length _ = none

-- The text without its escape sequences; `skip` bytes are part of the one at hand.
unfoldable pub strip_from : ℕ → Text → Text
unfolding parameter_length
strip_from skip [] = []
strip_from (suc skip) (c ∷ s) = strip_from skip s
strip_from zero (c ∷ s) = elim (sequence_length (c ∷ s)) [
  | none ↦ c ∷ strip_from zero s
  | some n ↦ strip_from (n - 1) s
]

-- What remains of a Terraform line that is no JSON event.
unfoldable pub observe_plain : Text → Parser → Parser
unfolding update_resource has_prefix str_eq terraform_plan_match terraform_action_match
observe_plain line p =
    if str_eq line (text "No changes. Your infrastructure matches the configuration.")
      || has_prefix line (text "Apply complete!")
      || has_prefix line (text "Destroy complete!")
    then report (event infrastructure (text "*") [] (text "converged") complete) p
    else elim (terraform_plan_match line) [
      | some address ↦ update_resource address running (text "planned") p
      | none ↦ elim (terraform_action_match line) [
        | none ↦ p
        | some (address, action) ↦
            update_resource address
              (if str_eq action (text "Creation complete")
                  || str_eq action (text "Destruction complete")
                then complete
                else running)
              (ascii_lower action) p
      ]
    ]

module _ (strings : Strings) (parse : Text → Option TerraformEvent) where
  abbrev pub observe_seed_or_plain : Text → Option (Bool × Parser) → Option Parser
  observe_seed_or_plain line none = none
  observe_seed_or_plain line (some (_, p)) = some (observe_plain line p)

  abbrev pub after_event : Text → Option (Bool × Parser) → Option Parser
  after_event line none = none
  after_event line (some (true, p)) = some p
  after_event line (some (false, p)) =
      observe_seed_or_plain line (observe_seed_plane strings line p)

  -- `observe` of a line without escape sequences and spaces around; `none` if it panics.
  unfoldable pub observe_line : Command → Text → Parser → Option Parser
  observe_line command [] p = some p
  observe_line command (c ∷ line) p =
      if ansible_command command.name
      then some (observe_ansible strings command (c ∷ line) p)
      else if not (terraform_command command.name)
      then some p
      else after_event (c ∷ line) (observe_terraform_event strings parse command (c ∷ line) p)

  -- `observe`
  unfoldable pub observe : Command → Text → Parser → Option Parser
  unfolding strip_from
  observe command raw p = observe_line command (strings.trim_space (strip_from zero raw)) p
