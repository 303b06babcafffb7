-- ===== src/Tui/Session/Order.antt =====
-- The numbers that cli/tui/session.go gives to the events it queues, over a run of reports.
use atum.Base.{
  ℕ, ◌+◌, ◌%◌, ◌^◌, ◌<◌, ◌≤◌, Bool, true, false, Option, List, [], ◌∷◌, ◌++◌, Text, str_eq, length,
  ◌≡◌, sym, ap, subst, if_cases, put, delete_key, lookup, arith,
}
use atum.Tui.Session.{
  Queued, logged, touched, Signature, inherits, same_signature, or_zero, key_of, signature_of,
  compact_changed, Report, Session, queue, queue_if, show, accepted, replaces, report_bounded,
  report, send_pending_events,
}
use atum.Tui.Resources.{Event}
use atum.Tui.Session.Batch.{Below, Increases, Ranges, sorted-Ranges}

-- What is pending, in the order of the reports.
unfoldable pub pending_of : List (Text × Queued) → List Queued
pending_of [] = []
pending_of ((k, q) ∷ m) = q ∷ pending_of m

abbrev AtMost : ℕ → List Queued → Type 0
AtMost n [] = Unit {0}
AtMost n (q ∷ qs) = (q.sequence ≤ n) × AtMost n qs

AtMost-suc : (n : ℕ) (qs : List Queued) → AtMost n qs → AtMost (n + 1) qs
AtMost-suc n [] h = tt
AtMost-suc n (q ∷ qs) (h, hs) = (omega arith, AtMost-suc n qs hs)

Below-delete_key :
    (n : ℕ) (k : Text) (m : List (Text × Queued))
    → Below n (pending_of m)
    → Below n (pending_of (delete_key k m))
unfolding delete_key pending_of
Below-delete_key n k [] h = tt
Below-delete_key n k ((j, q) ∷ m) (h, hs) =
    if_cases (λ x. Below n (pending_of x)) (str_eq j k) (λ _. Below-delete_key n k m hs)
      (λ _. (h, Below-delete_key n k m hs))

AtMost-delete_key :
    (n : ℕ) (k : Text) (m : List (Text × Queued))
    → AtMost n (pending_of m)
    → AtMost n (pending_of (delete_key k m))
unfolding delete_key pending_of
AtMost-delete_key n k [] h = tt
AtMost-delete_key n k ((j, q) ∷ m) (h, hs) =
    if_cases (λ x. AtMost n (pending_of x)) (str_eq j k) (λ _. AtMost-delete_key n k m hs)
      (λ _. (h, AtMost-delete_key n k m hs))

Increases-delete_key :
    (k : Text) (m : List (Text × Queued))
    → Increases (pending_of m)
    → Increases (pending_of (delete_key k m))
unfolding delete_key pending_of
Increases-delete_key k [] h = tt
Increases-delete_key k ((j, q) ∷ m) (h, hs) =
    if_cases (λ x. Increases (pending_of x)) (str_eq j k) (λ _. Increases-delete_key k m hs)
      (λ _. (Below-delete_key q.sequence k m h, Increases-delete_key k m hs))

Below-append :
    (n : ℕ) (k : Text) (q : Queued) (m : List (Text × Queued))
    → Below n (pending_of m)
    → n < q.sequence
    → Below n (pending_of (m ++ (k, q) ∷ []))
unfolding pending_of
Below-append n k q [] h lt = (lt, tt)
Below-append n k q ((j, p) ∷ m) (h, hs) lt = (h, Below-append n k q m hs lt)

AtMost-append :
    (n : ℕ) (k : Text) (q : Queued) (m : List (Text × Queued))
    → AtMost n (pending_of m)
    → q.sequence ≤ n
    → AtMost n (pending_of (m ++ (k, q) ∷ []))
unfolding pending_of
AtMost-append n k q [] h le = (le, tt)
AtMost-append n k q ((j, p) ∷ m) (h, hs) le = (h, AtMost-append n k q m hs le)

Increases-append :
    (n : ℕ) (k : Text) (q : Queued) (m : List (Text × Queued))
    → Increases (pending_of m)
    → AtMost n (pending_of m)
    → n < q.sequence
    → Increases (pending_of (m ++ (k, q) ∷ []))
unfolding pending_of
Increases-append n k q [] h le lt = (tt, tt)
Increases-append n k q ((j, p) ∷ m) (h, hs) (le, les) lt =
    (Below-append p.sequence k q m h (omega arith), Increases-append n k q m hs les lt)

-- The sequences of the pending events increase, and none is above the session's counter.
abbrev pub IsOrdered : Session → Type 0
IsOrdered s =
    Increases (pending_of s.pending_events) × AtMost s.event_sequence (pending_of s.pending_events)

-- One report at most takes one number.
abbrev Advances : Session → Session → Type 0
Advances s t = (t.event_sequence ≤ s.event_sequence + 1) × IsOrdered t

put-IsOrdered :
    (n : ℕ) (k : Text) (q : Queued) (m : List (Text × Queued))
    → Increases (pending_of m) × AtMost n (pending_of m)
    → q.sequence ≡ n + 1
    → Increases (pending_of (put k q m)) × AtMost q.sequence (pending_of (put k q m))
unfolding put
put-IsOrdered n k q m (grows, most) e = (
  Increases-append n k q (delete_key k m) (Increases-delete_key k m grows) gone (omega arith),
  AtMost-append q.sequence k q (delete_key k m)
      (subst (λ x. AtMost x (pending_of (delete_key k m))) (sym e)
        (AtMost-suc n (pending_of (delete_key k m)) gone))
      (omega arith),
)
  where
    gone : AtMost n (pending_of (delete_key k m))
    gone = AtMost-delete_key n k m most

queue-Advances :
    (k : Text) (r : Report) (s : Session)
    → IsOrdered s
    → s.event_sequence + 1 < 2 ^ 64
    → Advances s (queue k r s)
unfolding queue
queue-Advances k r s ordered bound =
    if_cases (Advances s) (replaces found (inherits found r))
      (λ _.
        (omega arith, put-IsOrdered s.event_sequence k next s.pending_events ordered (omega arith)))
      (λ _. (omega arith, ordered))
  where
    found : Option Queued
    found = lookup k s.pending_events

    next : Queued
    next = record { sequence = (s.event_sequence + 1) % 2 ^ 64; report = inherits found r }

queue_if-Advances :
    (b : Bool) (k : Text) (r : Report) (s : Session)
    → IsOrdered s
    → s.event_sequence + 1 < 2 ^ 64
    → Advances s (queue_if b k r s)
unfolding queue_if
queue_if-Advances true k r s ordered bound = queue-Advances k r s ordered bound
queue_if-Advances false k r s ordered bound = (omega arith, ordered)

show-Advances :
    (k : Text) (signature : Signature) (e : Event) (s t : Session)
    → Advances s t
    → Advances s (show k signature e t)
unfolding show
show-Advances k signature e s t h =
    if_cases (Advances s) t.raw (λ _. h)
      (λ _.
        if_cases (Advances s) t.interactive (λ _. h)
          (λ _.
            if_cases (Advances s) (compact_changed (lookup k t.compact_state) signature) (λ _. h)
              (λ _. h)))

accepted-Advances :
    (k : Text) (signature : Signature) (r : Report) (s : Session)
    → IsOrdered s
    → s.event_sequence + 1 < 2 ^ 64
    → Advances s (accepted k signature r s)
unfolding accepted
accepted-Advances k signature r s ordered bound =
    show-Advances k signature r.event s (queue_if s.interactive k r noted)
      (queue_if-Advances s.interactive k r noted ordered bound)
  where
    noted : Session
    noted = record s {
      last_events = put k signature s.last_events;
      lines = s.lines ++ logged r.event ∷ [];
    }

-- A report keeps the sequences of the pending events in order, and takes one number at most.
report_bounded-Advances :
    (r : Report) (s : Session)
    → IsOrdered s
    → s.event_sequence + 1 < 2 ^ 64
    → Advances s (report_bounded r s)
unfolding report_bounded
report_bounded-Advances r s ordered bound =
    if_cases (Advances s) s.closed (λ _. (omega arith, ordered))
      (λ _.
        if_cases (Advances s)
          (same_signature (or_zero (lookup (key_of r.event) s.last_events)) (signature_of r.event))
          (λ _. (omega arith, ordered))
          (λ _.
            accepted-Advances (key_of r.event) (signature_of r.event) r
              (record s { active_events = touched r.event s.active_events }) ordered bound))

-- The events of a session, reported one after the other.
unfoldable pub report_all : (Text → Bool) → List Report → Session → Session
unfolding report
report_all valid [] s = s
report_all valid (r ∷ rs) s = report_all valid rs (report valid r s)

-- The order that `report_bounded-Advances` keeps holds after every run that numbers fewer than 2 ^
-- 64 events.
report_all-IsOrdered :
    (valid : Text → Bool) (rs : List Report) (s : Session)
    → IsOrdered s
    → s.event_sequence + length rs < 2 ^ 64
    → IsOrdered (report_all valid rs s)
unfolding report_all report
report_all-IsOrdered valid [] s ordered bound = ordered
report_all-IsOrdered valid (r ∷ rs) s ordered bound =
    report_all-IsOrdered valid rs _ step.1 (omega (arith, step.0))
  where
    step : Advances s (report valid r s)
    step = report_bounded-Advances _ s ordered (omega arith)

-- The batch that is sent after a run of reports holds every pending event once, by increasing number,
-- whatever the order in which Go ranges over the map; then nothing is pending. The run starts with no
-- event pending, and numbers fewer than 2 ^ 64 events.
pub send_pending_events-order :
    (valid : Text → Bool) (rs : List Report) (s : Session) (ranged : List Queued)
    → s.pending_events ≡ []
    → s.event_sequence + length rs < 2 ^ 64
    → Ranges (pending_of (report_all valid rs s).pending_events) ranged
    → (send_pending_events ranged (report_all valid rs s) ≡ (
      pending_of (report_all valid rs s).pending_events,
      record (report_all valid rs s) { pending_events = [] },
    ))
      × Increases (pending_of (report_all valid rs s).pending_events)
unfolding send_pending_events pending_of
send_pending_events-order valid rs s ranged none_pending bound ranges = (
  ap (λ x. (x, record (report_all valid rs s) { pending_events = [] }))
      (sorted-Ranges _ ranged ordered.0 ranges),
  ordered.0,
)
  where
    start : IsOrdered s
    start =
        subst (λ m. Increases (pending_of m) × AtMost s.event_sequence (pending_of m))
          (sym none_pending) (tt, tt)

    ordered : IsOrdered (report_all valid rs s)
    ordered = report_all-IsOrdered valid rs s start bound
