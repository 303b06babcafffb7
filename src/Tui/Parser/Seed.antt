-- ===== src/Tui/Parser/Seed.antt =====
-- cli/tui/parser.go: the messages of the seed plane.
use atum.Base.{
  ℕ, suc, ◌+◌, ◌*◌, ◌-◌, ◌^◌, Bool, true, false, ◌&&◌, ◌||◌, Option, none, some, List, [], ◌∷◌,
  Text, text, str_eq, has_prefix, contains, index, length, take, drop, ltb, leb, ◌==◌,
  if◌then◌else◌,
}
use atum.Tui.Resources.{State, running, complete, failed, infrastructure, Parser, event, report}

-- What the package takes of the Unicode tables: `strings.ToLower`, `strings.TrimSpace` and
-- `strings.Fields`.
pub record Strings : Type 0 where
  pub to_lower : Text → Text
  pub trim_space : Text → Text
  pub fields : Text → List Text

-- `strconv.ParseInt(raw, 10, 64)` where the value is positive.
abbrev pub digit_of : ℕ → Option ℕ
digit_of c = if leb 48 c && leb c 57 then some (c - 48) else none

abbrev pub next_digit : ℕ → Option ℕ → Option ℕ
next_digit n none = none
next_digit n (some d) = some (n * 10 + d)

pub read_digits : Option ℕ → Text → Option ℕ
read_digits none s = none
read_digits (some n) [] = some n
read_digits (some n) (c ∷ s) = read_digits (next_digit n (digit_of c)) s

abbrev pub unsigned : Text → Text
unsigned [] = []
unsigned (c ∷ s) = if c == b'+' then s else c ∷ s

abbrev pub read_nonempty : Text → Option ℕ
read_nonempty [] = none
read_nonempty (c ∷ s) = read_digits (some 0) (c ∷ s)

abbrev pub positive_of : Option ℕ → Option ℕ
positive_of none = none
positive_of (some n) = if ltb 0 n && ltb n (2 ^ 63) then some n else none

abbrev pub read_positive : Text → Option ℕ
read_positive s = positive_of (read_nonempty (unsigned s))

-- `seedPlaneBytes` of the fields
pub seed_plane_bytes : List Text → ℕ
seed_plane_bytes [] = 0
seed_plane_bytes (f ∷ fields) =
    let rest = seed_plane_bytes fields in
    if has_prefix f (text "bytes=")
    then elim (read_positive (drop 6 f)) [ none ↦ rest | some n ↦ n ]
    else rest

-- `reportSeedService`
unfoldable pub report_seed_service : Text → Text → Text → Parser → Parser
unfolding has_prefix
report_seed_service id label state p =
    if has_prefix state (text "ready")
    then report (event infrastructure id label (text "healthy") complete) p
    else report (event infrastructure id label state running) p

-- The values of `forgejo=` and `harbor=`, the last ones counting.
abbrev pub key_value : Text → Option ℕ → Text × Text → Text × Text
key_value field none known = known
key_value field (some i) known =
    if str_eq (take i field) (text "forgejo")
    then (drop (suc i) field, known.1)
    else if str_eq (take i field) (text "harbor")
    then (known.0, drop (suc i) field)
    else known

pub services : List Text → Text × Text → Text × Text
services [] known = known
services (f ∷ fields) known = services fields (key_value f (index f (text "=")) known)

abbrev pub both : Text → State → Parser → Parser
both message state p =
    report (event infrastructure (text "seed-harbor") (text "Seed Harbor") message state)
      (report (event infrastructure (text "seed-forgejo") (text "Forgejo") message state) p)

abbrev pub loading : Text → ℕ → ℕ → Parser → Parser
loading message current total p =
    report
      (record (event infrastructure (text "seed-harbor") (text "Seed Harbor") message running) {
        bytes_current = current;
        bytes_total = total;
      })
      (report
        (record (event infrastructure (text "seed-forgejo") (text "Forgejo") message running) {
          bytes_current = current;
          bytes_total = total;
        })
        p)

abbrev pub images : ℕ → Bool → Parser → Parser
images total true p = loading (text "loaded exact seed images") total total p
images total false p = loading (text "loading exact seed images") 0 total p

abbrev pub report_services : Text × Text → Parser → Parser
report_services (forgejo, harbor) p =
    report_seed_service (text "seed-harbor") (text "Seed Harbor") harbor
      (report_seed_service (text "seed-forgejo") (text "Forgejo") forgejo p)

module _ (strings : Strings) where
  -- The switch of `observeSeedPlane`.
  unfoldable pub seed_message : Text → Text → Parser → Parser
  unfolding has_prefix contains
  seed_message detail lower p =
      if has_prefix lower (text "forgejo=")
      then report_services (services (strings.fields lower) (text "waiting", text "waiting")) p
      else if contains lower (text "loading exact forgejo and harbor images")
          || contains lower (text "loaded exact forgejo and harbor images")
      then images (seed_plane_bytes (strings.fields lower)) (contains lower (text "loaded exact")) p
      else if has_prefix lower (text "preparing harbor")
      then report (event infrastructure (text "seed-harbor") (text "Seed Harbor") detail running) p
      else if contains lower (text "reconciling forgejo administrator")
      then report
          (event infrastructure (text "seed-forgejo") (text "Forgejo")
            (text "reconciling administrator") running)
          p
      else if contains lower (text "timeout") || has_prefix lower (text "invalid ")
      then both detail failed p
      else p

  -- The detail is cut from the line at a position in its lower-case form, which may lie outside.
  abbrev pub seed_at : Text → Option ℕ → Parser → Option (Bool × Parser)
  seed_at line none p = some (false, p)
  seed_at line (some i) p =
      if ltb (length line) (i + 11)
      then none
      else let detail = strings.trim_space (drop (i + 11) line) in
        some
          (true, seed_message detail (strings.to_lower detail) (record p { seed_activity = true }))

  -- `observeSeedPlane`: whether the line is one, and `none` for a panic.
  unfoldable pub observe_seed_plane : Text → Parser → Option (Bool × Parser)
  observe_seed_plane line p = seed_at line (index (strings.to_lower line) (text "seed plane:")) p
