-- ===== src/Tui/Session.antt =====
-- cli/tui/session.go: what a session keeps of the events that are reported to it, and when it shows
-- them. A line that is printed stands as the event that it shows.
pub mod Once
pub mod Batch
pub mod Order
mod Tests
use atum.Base.{
  ℕ, zero, suc, ◌+◌, ◌-◌, ◌%◌, ◌^◌, Bool, true, false, ◌&&◌, ◌||◌, not, Option, none, some, List,
  [], ◌∷◌, ◌++◌, Text, text, str_eq, has_prefix, length, take, ◌==◌, ltb, leb, if◌then◌else◌, map,
  lookup, put,
}
use atum.Tui.Resources.{
  State, pending, running, complete, failed, Phase, preflight, credentials, infrastructure,
  orchestration, platform, updates, Event, with_elem, without_elem,
}

-- `eventSignature`
pub record Signature : Type 0 where
  pub state : State
  pub detail : Text
  pub current : ℕ
  pub total : ℕ
  pub bytes_current : ℕ
  pub bytes_total : ℕ

-- The zero value, which a map gives for a missing key.
abbrev pub zero_signature : Signature
zero_signature = record {
  state = pending;
  detail = [];
  current = 0;
  total = 0;
  bytes_current = 0;
  bytes_total = 0;
}

unfoldable pub is_state : State → State → Bool
is_state pending pending = true
is_state running running = true
is_state complete complete = true
is_state failed failed = true
is_state _ _ = false

-- `==` on signatures
pub same_signature : Signature → Signature → Bool
unfolding is_state str_eq
same_signature a b =
    is_state a.state b.state
    && str_eq a.detail b.detail
    && a.current == b.current
    && a.total == b.total
    && a.bytes_current == b.bytes_current
    && a.bytes_total == b.bytes_total

-- An event as it is reported, with the mark `Restart` that an explicit start sets.
pub record Report : Type 0 where
  pub event : Event
  pub restart : Bool

-- `queuedProgress`
pub record Queued : Type 0 where
  pub sequence : ℕ
  pub report : Report

-- A line of the raw log, and one of the console.
pub data Line : Type 0 where
  logged : Event → Line
  shown : Event → Line

-- `Session`, as far as events go.
pub record Session : Type 0 where
  pub raw : Bool
  pub interactive : Bool
  pub closed : Bool
  pub last_events : List (Text × Signature)
  pub active_events : List Text
  pub compact_state : List (Text × Signature)
  pub pending_events : List (Text × Queued)
  pub event_sequence : ℕ
  pub lines : List Line

unfoldable pub phase_name : Phase → Text
phase_name preflight = text "preflight"
phase_name credentials = text "credentials"
phase_name infrastructure = text "infrastructure"
phase_name orchestration = text "orchestration"
phase_name platform = text "platform"
phase_name updates = text "updates"

pub key_of : Event → Text
unfolding phase_name
key_of e = phase_name e.phase ++ b'/' ∷ e.id

-- `displayDetailLimit`
abbrev pub detail_limit : ℕ
detail_limit = 4096

-- The loop of `boundedDetail` over `end`; `valid` is `utf8.ValidString`.
unfoldable pub valid_end : (Text → Bool) → Text → ℕ → ℕ
valid_end valid detail zero = 0
valid_end valid detail (suc end) =
    let rest = valid_end valid detail end in
    if not (valid (take (suc end) detail)) then rest else suc end

-- `boundedDetail`; the ellipsis has three bytes.
unfoldable pub bounded_detail : (Text → Bool) → Text → Text
unfolding valid_end
bounded_detail valid detail =
    if leb (length detail) detail_limit
    then detail
    else take (valid_end valid detail detail_limit) detail ++ 226 ∷ 128 ∷ 166 ∷ []

pub signature_of : Event → Signature
signature_of e = record {
  state = e.state;
  detail = e.detail;
  current = e.current;
  total = e.total;
  bytes_current = e.bytes_current;
  bytes_total = e.bytes_total;
}

pub without_prefix : Text → List Text → List Text
unfolding has_prefix
without_prefix prefix [] = []
without_prefix prefix (k ∷ ks) =
    let rest = without_prefix prefix ks in if has_prefix k prefix then rest else k ∷ rest

-- The events that are active after a report.
pub touched : Event → List Text → List Text
unfolding without_prefix phase_name key_of with_elem without_elem is_state str_eq
touched e active =
    if str_eq e.id (text "*")
    then without_prefix (phase_name e.phase ++ b'/' ∷ []) active
    else if is_state e.state running
    then with_elem (key_of e) active
    else without_elem (key_of e) active

abbrev pub or_zero : Option Signature → Signature
or_zero none = zero_signature
or_zero (some s) = s

-- `compactChanged`: the detail does not count.
pub compact_changed : Option Signature → Signature → Bool
unfolding is_state
compact_changed none new = true
compact_changed (some old) new =
    not (is_state old.state new.state)
    || not (old.current == new.current)
    || not (old.total == new.total)
    || not (old.bytes_current == new.bytes_current)
    || not (old.bytes_total == new.bytes_total)

-- The restart that a pending event hands on.
pub inherits : Option Queued → Report → Report
unfolding is_state
inherits none r = r
inherits (some q) r =
    if q.report.restart && is_state r.event.state running then record r { restart = true } else r

pub is_terminal : Option Queued → Bool
unfolding is_state
is_terminal none = false
is_terminal (some q) =
    is_state q.report.event.state complete || is_state q.report.event.state failed

-- The test by which a report takes the place of the pending one.
pub replaces : Option Queued → Report → Bool
unfolding is_terminal is_state
replaces found r = not (is_terminal found) || not (is_state r.event.state running) || r.restart

-- What an interactive session queues.
pub queue : Text → Report → Session → Session
unfolding inherits replaces lookup put
queue key r s =
    let found = lookup key s.pending_events in
    let next = inherits found r in
    if replaces found next
    then record s {
      event_sequence = (s.event_sequence + 1) % 2 ^ 64;
      pending_events =
          put key (record { sequence = (s.event_sequence + 1) % 2 ^ 64; report = next })
            s.pending_events;
    }
    else s

-- What a session shows at once that is not interactive, or raw.
pub show : Text → Signature → Event → Session → Session
unfolding compact_changed lookup put
show key signature e s =
    if s.raw
    then record s { lines = s.lines ++ shown e ∷ [] }
    else if s.interactive
    then s
    else if compact_changed (lookup key s.compact_state) signature
    then record s {
      compact_state = put key signature s.compact_state;
      lines = s.lines ++ shown e ∷ [];
    }
    else record s { compact_state = put key signature s.compact_state }

pub queue_if : Bool → Text → Report → Session → Session
unfolding queue
queue_if true key r s = queue key r s
queue_if false key r s = s

-- A report that differs from the last of its key.
pub accepted : Text → Signature → Report → Session → Session
unfolding put queue_if show
accepted key signature r s = show key signature r.event (
    queue_if s.interactive key r (record s {
      last_events = put key signature s.last_events;
      lines = s.lines ++ logged r.event ∷ [];
    }))

-- `reportUnlocked`, for an event whose detail is within its bound.
unfoldable pub report_bounded : Report → Session → Session
unfolding touched key_of signature_of same_signature accepted lookup
report_bounded r s =
    if s.closed
    then s
    else let touching = record s { active_events = touched r.event s.active_events } in
      if same_signature (or_zero (lookup (key_of r.event) s.last_events)) (signature_of r.event)
      then touching
      else accepted (key_of r.event) (signature_of r.event) r touching

-- `reportUnlocked`
unfoldable pub report : (Text → Bool) → Report → Session → Session
unfolding report_bounded bounded_detail
report valid r =
    report_bounded
      (record r { event = record r.event { detail = bounded_detail valid r.event.detail } })

-- `sort.Slice` by the sequence
unfoldable pub insert_queued : Queued → List Queued → List Queued
insert_queued q [] = q ∷ []
insert_queued q (p ∷ ps) =
    let rest = insert_queued q ps in if ltb p.sequence q.sequence then p ∷ rest else q ∷ p ∷ ps

unfoldable pub sorted : List Queued → List Queued
unfolding insert_queued
sorted [] = []
sorted (q ∷ qs) = insert_queued q (sorted qs)

-- `sendPendingEvents`: the batch for the program, given the order in which Go ranges over the map.
unfoldable pub send_pending_events : List Queued → Session → List Queued × Session
unfolding sorted
send_pending_events ranged s = (sorted ranged, record s { pending_events = [] })
