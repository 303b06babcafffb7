-- ===== src/Tui/Model/Settled.antt =====
-- After the end of a command no row of cli/tui/model.go runs.
use atum.Base.{
  true, false, Option, none, some, List, [], ◌∷◌, Text, ◌≡◌, refl, sym, ap, ◌∙◌, put, arith,
}
use atum.Tui.Resources.{running}
use atum.Tui.Session.{is_state}
use atum.Tui.Model.{
  Item, Items, PhaseModel, Model, Reply, quit, finish, ended, each_row, with_rows, finish_phases,
  finish_reply, update,
}
use atum.Tui.Model.Rows.{
  Listed, Listed-put, HasRows, AllHaveRows, each_row-Listed, finish_phases-cons,
}
use atum.Tui.Model.Stays.{At, At-put_self, each_row-At}

abbrev pub Rests : Item → Type 0
Rests item = is_state item.state running ≡ false

abbrev pub AllRest : List Text → Items → Type 0
AllRest [] items = Unit {0}
AllRest (id ∷ ids) items = At Rests id items × AllRest ids items

abbrev pub NoneRuns : List PhaseModel → Type 0
NoneRuns [] = Unit {0}
NoneRuns (p ∷ ps) = AllRest p.order p.items × NoneRuns ps

ended-Rests : (err : Option Text) (item : Item) → Rests (ended err item)
unfolding ended is_state
ended-Rests none item = ground arith
ended-Rests (some e) item = ground arith

each_row-AllRest :
    (err : Option Text) (ids : List Text) (items rows : Items)
    → Listed ids items
    → each_row (ended err) ids items ≡ some rows
    → AllRest ids rows
unfolding each_row
each_row-AllRest err [] items rows h e = tt
each_row-AllRest err (id ∷ ids) items rows ((item, d), hs) e = (
  each_row-At Rests (ended err) id ids (put id (ended err item) items) rows
      (λ x _. ended-Rests err x) (Listed-put id (ended err item) ids items hs) rest
      (At-put_self Rests id (ended err item) items (ended-Rests err item)),
  each_row-AllRest err ids _ rows (Listed-put id (ended err item) ids items hs) rest,
)
  where
    rest : each_row (ended err) ids (put id (ended err item) items) ≡ some rows
    rest =
        sym (
          ap
            (λ o. elim o [
              | none ↦ none
              | some x ↦ each_row (ended err) ids (put id (ended err x) items)
            ])
            d)
        ∙ e

finished_row :
    (err : Option Text) (p : PhaseModel)
    → HasRows p
    → (q : PhaseModel) × (with_rows p (each_row (ended err) p.order p.items) ≡ some q)
      × AllRest q.order q.items
finished_row err p h = (
  record p { items = looped.0 },
  ap (with_rows p) looped.1,
  each_row-AllRest err p.order p.items looped.0 h looped.1,
)
  where
    looped :
        (rows : Items) × (each_row (ended err) p.order p.items ≡ some rows) × Listed p.order rows
    looped = each_row-Listed (ended err) p.order p.order p.items h h

abbrev Settles : Option Text → List PhaseModel → Type 0
Settles err ps = (qs : List PhaseModel) × (finish_phases err ps ≡ some qs) × NoneRuns qs

settled_cons :
    (err : Option Text) (p : PhaseModel) (ps : List PhaseModel)
    → (q : PhaseModel) × (with_rows p (each_row (ended err) p.order p.items) ≡ some q)
      × AllRest q.order q.items
    → Settles err ps
    → Settles err (p ∷ ps)
settled_cons err p ps (q, e, h) (qs, d, hs) =
    (q ∷ qs, finish_phases-cons err p q ps qs e d, (h, hs))

finish_phases-NoneRuns :
    (err : Option Text) (ps : List PhaseModel) → AllHaveRows ps → Settles err ps
unfolding finish_phases
finish_phases-NoneRuns err [] h = ([], refl, tt)
finish_phases-NoneRuns err (p ∷ ps) (h, hs) =
    settled_cons err p ps (finished_row err p h) (finish_phases-NoneRuns err ps hs)

-- The end of a command quits the terminal and leaves no row running, whether there is an error or
-- not. It is taken that each listed row has an item.
pub update-NoneRuns :
    (name : Text → Text) (err : Option Text) (m : Model)
    → AllHaveRows m.phases
    → (r : Reply) × (update name (finish err) m ≡ some r)
      × (r.model.finished ≡ true)
      × (r.model.err ≡ err)
      × (r.command ≡ some quit)
      × NoneRuns r.model.phases
unfolding update
update-NoneRuns name err m h = (
  record {
    model = record m { finished = true; err = err; phases = settled.0 };
    command = some quit;
    cancels = false;
  },
  ap (finish_reply err m) settled.1,
  refl,
  refl,
  refl,
  settled.2,
)
  where
    settled : Settles err m.phases
    settled = finish_phases-NoneRuns err m.phases h
