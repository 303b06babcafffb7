-- ===== src/Tui/Parser/Words.antt =====
-- The words by which cli/tui/parser.go reads a line of output.
use atum.Base.{
  ℕ, zero, suc, ◌+◌, ◌-◌, ◌/◌, ◌%◌, Bool, true, false, not, ◌&&◌, ◌||◌, Option, none, some, List,
  [], ◌∷◌, ◌++◌, map, Text, text, str_eq, has_prefix, has_suffix, index, trim_prefix, length, take,
  drop, ◌==◌, ltb, leb, if◌then◌else◌,
}

-- `strings.LastIndex(s, sub)`
pub last_index : Text → Text → Option ℕ
unfolding has_prefix
last_index [] sub = if has_prefix [] sub then some 0 else none
last_index (c ∷ s) sub = elim (last_index s sub) [
  | some i ↦ some (suc i)
  | none ↦ if has_prefix (c ∷ s) sub then some 0 else none
]

-- `strings.TrimSuffix(s, suffix)`
pub trim_suffix : Text → Text → Text
unfolding has_suffix
trim_suffix s suffix = if has_suffix s suffix then take (length s - length suffix) s else s

-- The position of the first byte that is one of a set.
pub index_any : List ℕ → Text → Option ℕ
index_any set [] = none
index_any set (c ∷ s) =
    let rest = index_any set s in
    if among c set then some 0 else elim rest [ none ↦ none | some i ↦ some (suc i) ]
  where
    among : ℕ → List ℕ → Bool
    among c [] = false
    among c (d ∷ set) = c == d || among c set

-- Upper-case letters of ASCII, made lower-case.
unfoldable pub ascii_lower : Text → Text
ascii_lower = map (λ c. if leb b'A' c && leb c b'Z' then c + 32 else c)

-- `%d`
pub digits : ℕ → ℕ → Text
digits zero n = []
digits (suc fuel) n = elim (ltb n 10) [
  | true ↦ (48 + n) ∷ []
  | false ↦ digits fuel (n / 10) ++ ((48 + n % 10) ∷ [])
]

abbrev pub decimal : ℕ → Text
decimal n = digits (suc n) n

-- `terraformCommand` and `ansibleCommand`
unfoldable pub terraform_command : Text → Bool
unfolding has_suffix str_eq
terraform_command name = str_eq name (text "terraform") || has_suffix name (text "/terraform")

unfoldable pub ansible_command : Text → Bool
unfolding has_suffix str_eq
ansible_command name =
    str_eq name (text "ansible-playbook") || has_suffix name (text "/ansible-playbook")

-- `terraformOperation`
unfoldable pub terraform_operation : List Text → Text
unfolding has_prefix str_eq
terraform_operation [] = []
terraform_operation (a ∷ arguments) = elim (has_prefix a (text "-")) [
  | true ↦ terraform_operation arguments
  | false ↦
      if str_eq a (text "apply") || str_eq a (text "destroy") || str_eq a (text "plan")
      then a
      else []
]

-- `terraformActionDetail`
unfoldable pub terraform_action_detail : Text → Bool → Text
unfolding str_eq
terraform_action_detail action true =
    if str_eq action (text "create")
    then text "created"
    else if str_eq action (text "delete")
    then text "destroyed"
    else if str_eq action (text "read")
    then text "refreshed"
    else if str_eq action (text "replace")
    then text "replaced"
    else if str_eq action (text "update")
    then text "updated"
    else text "complete"
terraform_action_detail action false =
    if str_eq action (text "create")
    then text "creating"
    else if str_eq action (text "delete")
    then text "destroying"
    else if str_eq action (text "read")
    then text "refreshing"
    else if str_eq action (text "replace")
    then text "replacing"
    else if str_eq action (text "update")
    then text "updating"
    else if str_eq action (text "noop")
    then text "unchanged"
    else text "planned"

-- `ansiblePullDetail`; `none` where it is not found.
abbrev pub pull_at : Text → Option ℕ → Option Text
pull_at payload none = none
pull_at payload (some zero) = none
pull_at payload (some (suc i)) =
    if str_eq (ascii_lower (drop (suc i + length (text " required is: ")) payload)) (text "true")
    then some (text "pulling " ++ take (suc i) payload)
    else some (text "using cached " ++ take (suc i) payload)

unfoldable pub ansible_pull_detail : Text → Option Text
unfolding has_prefix trim_prefix
ansible_pull_detail line =
    if not (has_prefix line (text "\"msg\": \"Pull "))
    then none
    else let payload = trim_suffix (trim_prefix line (text "\"msg\": \"Pull ")) (text "\"") in
      pull_at payload (last_index payload (text " required is: "))

-- What stands between two positions, the first excluded.
abbrev pub between : ℕ → ℕ → Text → Text
between opening closing s = drop (suc opening) (take closing s)

abbrev pub bracketed : Text → Option ℕ → Option ℕ → Text
bracketed line none _ = []
bracketed line (some opening) none = []
bracketed line (some opening) (some closing) =
    if leb closing opening then [] else between opening closing line

-- `ansibleTaskDetail`; `none` where the line is no task.
unfoldable pub ansible_task_detail : Text → Option Text
unfolding has_prefix
ansible_task_detail line =
    if not (has_prefix line (text "TASK ["))
      && not (has_prefix line (text "PLAY ["))
      && not (has_prefix line (text "RUNNING HANDLER ["))
    then none
    else some (bracketed line (index line (text "[")) (last_index line (text "]")))

-- The host between brackets, up to a word, or before a byte.
abbrev pub up_to : Text → Option ℕ → Text
up_to s none = []
up_to s (some i) = take i s

abbrev pub up_to_or_all : Text → Option ℕ → Text
up_to_or_all s none = s
up_to_or_all s (some i) = take i s

abbrev pub after_open : Text → Option ℕ → Text
after_open line none = up_to line (index line (text "]"))
after_open line (some opening) =
    up_to (drop (suc opening) line) (index (drop (suc opening) line) (text "]"))

abbrev pub after_on : Text → Option ℕ → Text
after_on line none = up_to (drop 3 line) (index (drop 3 line) (text ":"))
after_on line (some i) = up_to (drop (i + 4) line) (index (drop (i + 4) line) (text ":"))

abbrev pub after_for : Text → Option ℕ → Text
after_for line none = []
after_for line (some i) =
    up_to_or_all (drop (i + 5) line) (index_any (32 ∷ b'=' ∷ b'>' ∷ []) (drop (i + 5) line))

-- The raw host of a result line, empty where there is none.
unfoldable pub raw_host : Text → Text
unfolding has_prefix
raw_host line =
    if has_prefix line (text "ok: [")
      || has_prefix line (text "changed: [")
      || has_prefix line (text "fatal: [")
      || has_prefix line (text "failed: [")
      || has_prefix line (text "skipping: [")
      || has_prefix line (text "FAILED - RETRYING: [")
    then after_open line (index line (text "["))
    else if has_prefix line (text "ASYNC POLL on ")
        || has_prefix line (text "ASYNC OK on ")
        || has_prefix line (text "ASYNC FAILED on ")
    then after_on line (index line (text " on "))
    else if has_prefix line (text "included: ")
    then after_for line (last_index line (text " for "))
    else []

-- `terraformPlanPattern` and `terraformActionPattern` admit four kinds of resource.
unfoldable pub libvirt_address : Text → Bool
unfolding has_prefix
libvirt_address a =
    has_prefix a (text "libvirt_network.") && ltb 16 (length a)
    || has_prefix a (text "libvirt_domain.") && ltb 15 (length a)
    || has_prefix a (text "libvirt_volume.") && ltb 15 (length a)
    || has_prefix a (text "libvirt_cloudinit_disk.") && ltb 23 (length a)

abbrev pub planned_at : Text → Option ℕ → Option Text
planned_at s none = none
planned_at s (some i) =
    if libvirt_address (take i s)
      && (str_eq (drop i s) (text " will be created")
          || str_eq (drop i s) (text " will be destroyed"))
    then some (take i s)
    else none

unfoldable pub terraform_plan_match : Text → Option Text
unfolding has_prefix
terraform_plan_match line =
    if has_prefix line (text "# ")
    then planned_at (drop 2 line) (index (drop 2 line) (text " "))
    else none

abbrev pub first_prefix : Text → List Text → Option Text
first_prefix s [] = none
first_prefix s (w ∷ ws) = if has_prefix s w then some w else first_prefix s ws

abbrev pub with_address : Text → Option Text → Option (Text × Text)
with_address a none = none
with_address a (some w) = some (a, w)

abbrev pub action_at : Text → Option ℕ → Option (Text × Text)
action_at s none = none
action_at s (some i) =
    if libvirt_address (take i s) && has_prefix (drop i s) (text ": ")
    then with_address (take i s) (
        first_prefix (drop (i + 2) s) (
          text "Creating"
          ∷ text "Creation complete"
          ∷ text "Destroying"
          ∷ text "Destruction complete"
          ∷ text "Refreshing state"
          ∷ []))
    else none

unfoldable pub terraform_action_match : Text → Option (Text × Text)
terraform_action_match line = action_at line (index line (text ":"))
