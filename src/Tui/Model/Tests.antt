-- ===== src/Tui/Model/Tests.antt =====
-- Runs of the rows of cli/tui/model.go.
use atum.Base.{true, false, lookup, some, List, [], ◌∷◌, Text, text, ◌≡◌, refl}
use atum.Tui.Resources.{State, pending, running, complete, failed, orchestration, platform, Event}
use atum.Tui.Resources as Events
use atum.Tui.Session.{Report, is_state}
use atum.Tui.Model.{
  Item, PhaseSpec, Model, Reply, quit, event, finish, ticked, key, new_model, new_item, apply,
  is_ended, update, update_all,
}
use atum.Tui.Model.Rows.{AllHaveRows, new_model-AllHaveRows, update_all-returns}
use atum.Tui.Model.Stays.{AtRow}
use atum.Tui.Model.Late.{IsSame, apply-late}
use atum.Tui.Model.Settled.{NoneRuns, update-NoneRuns}

abbrev same_name : Text → Text
same_name id = id

abbrev specs : List PhaseSpec
specs =
    record {
      id = orchestration;
      label = text "Cluster";
      items = record { id = text "one"; label = text "One" } ∷ [];
    }
    ∷ []

abbrev report : Text → State → Report
report id state = record { event = Events.event orchestration id [] [] state; restart = false }

abbrev start : Model
start = new_model specs

update_all-returns_example :
    (m : Model) × (update_all same_name
        (event (report (text "two") running)
          ∷ event (report (text "*") complete)
          ∷ key (text "q")
          ∷ ticked
          ∷ [])
        start
      ≡ some m)
    × AllHaveRows m.phases
update_all-returns_example = update_all-returns same_name specs (
    event (report (text "two") running)
    ∷ event (report (text "*") complete)
    ∷ key (text "q")
    ∷ ticked
    ∷ [])

update-NoneRuns_example :
    (r : Reply) × (update same_name (finish (some (text "failed"))) start ≡ some r)
    × (r.model.finished ≡ true)
    × (r.model.err ≡ some (text "failed"))
    × (r.command ≡ some quit)
    × NoneRuns r.model.phases
update-NoneRuns_example =
    update-NoneRuns same_name (some (text "failed")) start (new_model-AllHaveRows specs)

abbrev ended_one : Item
ended_one = record (new_item (text "one") (text "One")) { state = complete }

abbrev one_ended : Model
one_ended = record start {
  phases =
      record {
        id = orchestration;
        label = text "Cluster";
        visible = true;
        order = text "one" ∷ [];
        items = (text "one", ended_one) ∷ [];
      }
      ∷ [];
}

apply-late_example :
    (n : Model) × (apply same_name (report (text "one") running) one_ended ≡ some n)
    × AtRow (IsSame ended_one) 0 (text "one") n.phases
unfolding is_ended is_state lookup
apply-late_example =
    apply-late ended_one refl same_name (report (text "one") running) 0 (text "one") one_ended refl
      (((ended_one, refl), tt), tt) (ended_one, refl, refl)
