-- ===== src/Tui/Parser/Keeps/Events.antt =====
-- The events of Terraform and the messages of the seed plane keep the memory consistent.
use atum.Base.{
  index-le, ◌+◌, ℕ, Bool, true, false, not, ◌&&◌, ◌||◌, Option, none, some, Text, text, str_eq,
  has_prefix, index, length, ltb, ◌==◌, if_cases, ◌≡◌, refl, arith,
}
use atum.Tui.Resources.{running, Parser}
use atum.Tui.Resources.Invariant.{IsConsistent, update_resource-IsConsistent}
use atum.Tui.Parser.Seed.{
  Strings, seed_message, seed_at, observe_seed_plane, report_seed_service, images, seed_plane_bytes,
}
use atum.Tui.Parser.Ansible.{Command}
use atum.Tui.Parser.Terraform.{
  TerraformEvent, resource_event, terraform_event, provisioning, accepted_event, handled, decoded,
  observe_terraform_event,
}
use atum.Tui.Parser.Keeps.Memory.{KeepsIf, KeepsPairIf, alike, if_IsConsistent, report-IsConsistent}

module _ (strings : Strings) (G : Type 0) where
  seed_service-IsConsistent :
      (id label state : Text) (p : Parser)
      → IsConsistent p
      → IsConsistent (report_seed_service id label state p)
  unfolding report_seed_service
  seed_service-IsConsistent id label state p c =
      if_IsConsistent _ _ _ (alike p _ refl refl c) (alike p _ refl refl c)

  seed_message-IsConsistent :
      (detail lower : Text) (p : Parser)
      → IsConsistent p
      → IsConsistent (seed_message strings detail lower p)
  unfolding seed_message
  seed_message-IsConsistent detail lower p c =
      search (if_IsConsistent, report-IsConsistent, seed_service-IsConsistent, loaded) depth 12
    where
      loaded : (b : Bool) → IsConsistent (images (seed_plane_bytes (strings.fields lower)) b p)
      loaded true = alike p _ refl refl c
      loaded false = alike p _ refl refl c

  pub seed_plane-KeepsPair :
      (line : Text) (p : Parser)
      → (G → length (strings.to_lower line) ≡ length line)
      → IsConsistent p
      → KeepsPairIf G (observe_seed_plane strings line p)
  unfolding observe_seed_plane
  seed_plane-KeepsPair line p same_length c =
      at (index (strings.to_lower line) (text "seed plane:")) refl
    where
      outside :
          (i : ℕ)
          → index (strings.to_lower line) (text "seed plane:") ≡ some i
          → ltb (length line) (i + 11) ≡ true
          → length (strings.to_lower line) ≡ length line
          → ⊥
      outside i e t same =
          ground (arith, t, same, index-le (strings.to_lower line) (text "seed plane:") i e)

      at :
          (o : Option ℕ)
          → index (strings.to_lower line) (text "seed plane:") ≡ o
          → KeepsPairIf G (seed_at strings line o p)
      at none e = c
      at (some i) e =
          if_cases (KeepsPairIf G) (ltb (length line) (i + 11))
            (λ t g. outside i e t (same_length g))
            (λ _.
              seed_message-IsConsistent _ _ _
                (alike p (record p { seed_activity = true }) refl refl c))

  resource_event-IsConsistent :
      (e : TerraformEvent) (p : Parser) → IsConsistent p → IsConsistent (resource_event strings e p)
  unfolding resource_event
  resource_event-IsConsistent e p c =
      search (if_IsConsistent, update_resource-IsConsistent) depth 12

  terraform_event-IsConsistent :
      (command : Command) (e : TerraformEvent) (p : Parser)
      → IsConsistent p
      → IsConsistent (terraform_event strings command e p)
  unfolding terraform_event
  terraform_event-IsConsistent command e p c =
      search (if_IsConsistent, report-IsConsistent, resource_event-IsConsistent) depth 12

  accepted_event-Keeps :
      (command : Command) (e : TerraformEvent) (p : Parser)
      → (G → length (strings.to_lower e.hook_output) ≡ length e.hook_output)
      → IsConsistent p
      → KeepsIf G (accepted_event strings command e p)
  unfolding accepted_event
  accepted_event-Keeps command e p same_length c =
      if_cases (KeepsIf G) (str_eq e.kind (text "provision_progress"))
        (λ _.
          provisioned (observe_seed_plane strings e.hook_output p)
            (seed_plane-KeepsPair e.hook_output p same_length c))
        (λ _. terraform_event-IsConsistent command e p c)
    where
      provisioned :
          (o : Option (Bool × Parser)) → KeepsPairIf G o → KeepsIf G (provisioning strings e o)
      provisioned none k = k
      provisioned (some (seen, q)) k =
          if_cases (KeepsIf G) (not seen && not (length e.hook_address == 0))
            (λ _. update_resource-IsConsistent e.hook_address running (text "provisioning") q k)
            (λ _. k)

  pub terraform-KeepsPair :
      (parse : Text → Option TerraformEvent) (command : Command) (line : Text) (p : Parser)
      → ((e : TerraformEvent)
          → parse line ≡ some e
          → G
          → length (strings.to_lower e.hook_output) ≡ length e.hook_output)
      → IsConsistent p
      → KeepsPairIf G (observe_terraform_event strings parse command line p)
  unfolding observe_terraform_event
  terraform-KeepsPair parse command line p same_length c =
      if_cases (KeepsPairIf G) (ltb (length line) 2 || not (has_prefix line (text "{"))) (λ _. c)
        (λ _. read (parse line) refl)
    where
      handled_so : (o : Option Parser) → KeepsIf G o → KeepsPairIf G (handled strings o)
      handled_so none k = k
      handled_so (some q) k = k

      read :
          (o : Option TerraformEvent) → parse line ≡ o → KeepsPairIf G (decoded strings command o p)
      read none d = c
      read (some e) d =
          if_cases (KeepsPairIf G)
            (not (str_eq e.module_name (text "terraform.ui")) || length e.kind == 0) (λ _. c)
            (λ _.
              handled_so (accepted_event strings command e p)
                (accepted_event-Keeps command e p (same_length e d) c))
