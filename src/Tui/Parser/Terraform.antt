-- ===== src/Tui/Parser/Terraform.antt =====
-- cli/tui/parser.go: the JSON events of Terraform.
use atum.Base.{
  ℕ, Bool, true, false, not, ◌&&◌, ◌||◌, Option, none, some, List, [], ◌∷◌, ◌++◌, Text, text,
  str_eq, has_prefix, length, ltb, ◌==◌, if◌then◌else◌,
}
use atum.Tui.Resources.{
  State, running, complete, failed, infrastructure, Parser, event, report, update_resource,
}
use atum.Tui.Parser.Words.{terraform_action_detail, terraform_operation, decimal}
use atum.Tui.Parser.Seed.{Strings, observe_seed_plane}
use atum.Tui.Parser.Ansible.{Command}

-- `terraformEvent`, with its hook, change and changes; the counts are not negative.
pub record TerraformEvent : Type 0 where
  pub level : Text
  pub message : Text
  pub module_name : Text
  pub kind : Text
  pub ui : Text
  pub hook_address : Text
  pub hook_action : Text
  pub hook_output : Text
  pub hook_elapsed_seconds : ℕ
  pub change_address : Text
  pub change_action : Text
  pub add : ℕ
  pub change : ℕ
  pub remove : ℕ
  pub operation : Text

-- The three bytes of the separating dot, between spaces.
abbrev pub separator : Text
separator = 32 ∷ 194 ∷ 183 ∷ 32 ∷ []

abbrev pub terraform_report : Text → State → Parser → Parser
terraform_report detail state p =
    report (event infrastructure (text "terraform") (text "Terraform") detail state) p

abbrev pub elapsed_detail : TerraformEvent → Text
elapsed_detail e =
    let detail = terraform_action_detail e.hook_action false in
    if ltb 0 e.hook_elapsed_seconds
    then detail ++ (separator ++ (decimal e.hook_elapsed_seconds ++ text "s"))
    else detail

abbrev pub summary : TerraformEvent → Text
summary e =
    decimal e.add
    ++ (text " added, "
        ++ (decimal e.change ++ (text " changed, " ++ (decimal e.remove ++ text " removed"))))

-- Whether a kind is one of some.
abbrev pub is_one : Text → List Text → Bool
is_one k [] = false
is_one k (w ∷ ws) = str_eq k w || is_one k ws

module _ (strings : Strings) where
  abbrev pub provisioning : TerraformEvent → Option (Bool × Parser) → Option Parser
  provisioning e none = none
  provisioning e (some (seen, p)) =
      if not seen && not (length e.hook_address == 0)
      then some (update_resource e.hook_address running (text "provisioning") p)
      else some p

  -- The cases of the switch that report a resource.
  unfoldable pub resource_event : TerraformEvent → Parser → Parser
  unfolding update_resource
  resource_event e p =
      if str_eq e.kind (text "planned_change")
      then update_resource e.change_address running (terraform_action_detail e.change_action false)
          p
      else if is_one e.kind (text "apply_start" ∷ text "refresh_start" ∷ [])
      then update_resource e.hook_address running (terraform_action_detail e.hook_action false) p
      else if str_eq e.kind (text "provision_start")
      then update_resource e.hook_address running (text "provisioning") p
      else if is_one e.kind (text "apply_progress" ∷ text "refresh_progress" ∷ [])
      then update_resource e.hook_address running (elapsed_detail e) p
      else if str_eq e.kind (text "apply_complete")
      then update_resource e.hook_address complete (terraform_action_detail e.hook_action true) p
      else if str_eq e.kind (text "refresh_complete")
      then update_resource e.hook_address running (text "refreshed") p
      else if str_eq e.kind (text "provision_complete")
      then update_resource e.hook_address running (text "provisioner complete") p
      else if is_one e.kind
          (text "apply_errored" ∷ text "refresh_errored" ∷ text "provision_errored" ∷ [])
      then update_resource e.hook_address failed (text "failed") p
      else p

  -- The cases that report Terraform itself.
  unfoldable pub terraform_event : Command → TerraformEvent → Parser → Parser
  terraform_event command e p =
      if str_eq e.kind (text "version")
      then if not (length e.ui == 0) && not (has_prefix e.ui (text "1."))
        then terraform_report (text "Terraform JSON UI " ++ (e.ui ++ text "; retaining raw output"))
            running p
        else p
      else if str_eq e.kind (text "change_summary")
      then if not (str_eq e.operation (text "plan"))
          || str_eq (terraform_operation command.args) (text "plan")
        then report (event infrastructure (text "*") [] (summary e) complete) p
        else p
      else if is_one e.kind (text "init_output" ∷ text "log" ∷ [])
      then if not (length e.message == 0) then terraform_report e.message running p else p
      else if str_eq e.kind (text "diagnostic")
      then if not (length e.message == 0)
        then terraform_report e.message (if str_eq e.level (text "error") then failed else running)
            p
        else p
      else resource_event e p

  unfoldable pub accepted_event : Command → TerraformEvent → Parser → Option Parser
  accepted_event command e p =
      if str_eq e.kind (text "provision_progress")
      then provisioning e (observe_seed_plane strings e.hook_output p)
      else some (terraform_event command e p)

  abbrev pub handled : Option Parser → Option (Bool × Parser)
  handled none = none
  handled (some p) = some (true, p)

  abbrev pub decoded : Command → Option TerraformEvent → Parser → Option (Bool × Parser)
  decoded command none p = some (false, p)
  decoded command (some e) p =
      if not (str_eq e.module_name (text "terraform.ui")) || length e.kind == 0
      then some (false, p)
      else handled (accepted_event command e p)

  -- `observeTerraformEvent`: whether the line was an event; `none` for a panic. `parse` is the JSON
  -- decoder, `none` for its errors.
  unfoldable pub observe_terraform_event :
      (Text → Option TerraformEvent) → Command → Text → Parser → Option (Bool × Parser)
  unfolding has_prefix
  observe_terraform_event parse command line p =
      if ltb (length line) 2 || not (has_prefix line (text "{"))
      then some (false, p)
      else decoded command (parse line) p
