-- ===== src/Tui/Parser/Keeps/Memory.antt =====
-- A consistent memory, where the parser does not panic.
use atum.Base.{
  Bool, true, false, Option, none, some, Text, [], ◌∷◌, ◌&&◌, leb, length, length-map, ap, ◌∙◌,
  if◌then◌else◌, ◌≡◌, refl,
}
use atum.Tui.Resources.{Parser, Event, report}
use atum.Tui.Resources.Invariant.{IsConsistent}
use atum.Tui.Parser.Words.{ascii_lower}
use atum.Tui.Parser.Seed.{Strings}

-- A panic is possible only where making a text lower-case changes its length.
abbrev pub KeepsLength : Strings → Type 0
KeepsLength strings = (s : Text) → length (strings.to_lower s) ≡ length s

-- A consistent memory, or a panic that `G` rules out.
abbrev pub KeepsIf : Type 0 → Option Parser → Type 0
KeepsIf G none = G → ⊥
KeepsIf G (some p) = IsConsistent p

abbrev pub KeepsPairIf : Type 0 → Option (Bool × Parser) → Type 0
KeepsPairIf G none = G → ⊥
KeepsPairIf G (some (b, p)) = IsConsistent p

abbrev pub Keeps : Strings → Option Parser → Type 0
Keeps strings = KeepsIf (KeepsLength strings)

-- `strings.ToLower` on ASCII.
abbrev pub is_ascii : Text → Bool
is_ascii [] = true
is_ascii (c ∷ s) = leb c 127 && is_ascii s

abbrev pub LowersAscii : Strings → Type 0
LowersAscii strings = (s : Text) → is_ascii s ≡ true → strings.to_lower s ≡ ascii_lower s

pub length-to_lower :
    (strings : Strings) (s : Text)
    → LowersAscii strings
    → is_ascii s ≡ true
    → length (strings.to_lower s) ≡ length s
unfolding ascii_lower
length-to_lower strings s lowers ascii = ap length (lowers s ascii) ∙ length-map _ s

-- Nothing but events, the activity and the stage changes.
pub alike :
    (p q : Parser)
    → q.resources ≡ p.resources
    → q.active_nodes ≡ p.active_nodes
    → IsConsistent p
    → IsConsistent q
alike p q e f c = record {
  resources = rw e c.resources;
  nodes_once = rw f c.nodes_once;
  nodes_bounded = rw f c.nodes_bounded;
}

pub if_IsConsistent :
    (b : Bool) (p q : Parser) → IsConsistent p → IsConsistent q → IsConsistent (if b then p else q)
if_IsConsistent true p q h k = h
if_IsConsistent false p q h k = k

pub report-IsConsistent : (e : Event) (p : Parser) → IsConsistent p → IsConsistent (report e p)
report-IsConsistent e p c = alike p (report e p) refl refl c
