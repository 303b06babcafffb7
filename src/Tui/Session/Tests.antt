-- ===== src/Tui/Session/Tests.antt =====
-- Runs of a session of cli/tui/session.go.
use atum.Base.{ℕ, Bool, inr, true, false, List, [], ◌∷◌, Text, text, ◌≡◌, refl, arith}
use atum.Tui.Resources.{State, running, complete, orchestration, event}
use atum.Tui.Session.{Report, Queued, Session, report, send_pending_events}
use atum.Tui.Session.Batch.{Increases, Ranges}
use atum.Tui.Session.Order.{pending_of, report_all, send_pending_events-order}
use atum.Tui.Session.Once.{report-report}

abbrev new_session : Session
new_session = record {
  raw = false;
  interactive = true;
  closed = false;
  last_events = [];
  active_events = [];
  compact_state = [];
  pending_events = [];
  event_sequence = 0;
  lines = [];
}

abbrev any_text : Text → Bool
any_text t = true

abbrev node : Text → State → Report
node id state = record { event = event orchestration id [] [] state; restart = false }

abbrev first_start : Report
first_start = node (text "one") running

abbrev other_start : Report
other_start = node (text "two") running

abbrev first_end : Report
first_end = node (text "one") complete

abbrev queued : ℕ → Report → Queued
queued n r = record { sequence = n; report = r }

abbrev run : Session
run = report_all any_text (first_start ∷ other_start ∷ first_end ∷ []) new_session

-- The end of the first node takes the place of its start, and comes after the second.
pending_run : pending_of run.pending_events ≡ queued 2 other_start ∷ queued 3 first_end ∷ []
unfolding pending_of report_all report
pending_run = refl

-- A late update does not replace an end that is still pending; a restart does.
late_start :
    pending_of (report any_text first_start run).pending_events ≡ pending_of run.pending_events
unfolding pending_of report_all report
late_start = refl

restarted :
    pending_of (report any_text (record first_start { restart = true }) run).pending_events
    ≡ queued 2 other_start ∷ queued 4 (record first_start { restart = true }) ∷ []
unfolding pending_of report_all report
restarted = refl

report-report_example :
    report any_text first_start (report any_text first_start new_session)
    ≡ report any_text first_start new_session
report-report_example = report-report any_text first_start new_session

abbrev swapped : List Queued
swapped = queued 3 first_end ∷ queued 2 other_start ∷ []

run_Ranges : Ranges (pending_of run.pending_events) swapped
unfolding pending_of report_all report
run_Ranges = (queued 3 first_end ∷ [], ([], refl, (refl, refl)), inr (refl, (refl, refl)))

send_pending_events-order_example :
    (send_pending_events swapped run
      ≡ (pending_of run.pending_events, record run { pending_events = [] }))
    × Increases (pending_of run.pending_events)
send_pending_events-order_example =
    send_pending_events-order any_text (first_start ∷ other_start ∷ first_end ∷ []) new_session
      swapped refl (omega arith) run_Ranges
