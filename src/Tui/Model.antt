-- ===== src/Tui/Model.antt =====
-- cli/tui/model.go: the rows that the terminal shows, and how a message changes them. A nil item is
-- `none`: to read it panics. Times, the completion and the log shown are left out, and so is the
-- rendering.
pub mod Rows
pub mod Stays
pub mod Late
pub mod Settled
mod Tests
use atum.Base.{
  ℕ, suc, ◌+◌, max, Bool, true, false, ◌&&◌, ◌||◌, not, Option, none, some, List, [], ◌∷◌, ◌++◌,
  Text, text, str_eq, length, set, get_or, if◌then◌else◌, lookup, put,
}
use atum.Tui.Resources.{
  State, pending, running, complete, failed, Phase, preflight, credentials, infrastructure,
  orchestration, platform, updates, Event,
}
use atum.Tui.Session.{is_state, Report, Queued, phase_name}

-- `itemModel`
pub record Item : Type 0 where
  pub id : Text
  pub label : Text
  pub detail : Text
  pub state : State
  pub current : ℕ
  pub total : ℕ
  pub bytes_current : ℕ
  pub bytes_total : ℕ

abbrev pub Items : Type 0
Items = List (Text × Item)

-- `phaseModel`
pub record PhaseModel : Type 0 where
  pub id : Phase
  pub label : Text
  pub visible : Bool
  pub order : List Text
  pub items : Items

-- `itemSpec` and `phaseSpec`
pub record ItemSpec : Type 0 where
  pub id : Text
  pub label : Text

pub record PhaseSpec : Type 0 where
  pub id : Phase
  pub label : Text
  pub items : List ItemSpec

-- `model`: a pointer to a phase is its index in `phases`.
pub record Model : Type 0 where
  pub phases : List PhaseModel
  pub by_phase : List (Text × ℕ)
  pub width : ℕ
  pub height : ℕ
  pub frame : ℕ
  pub ticking : Bool
  pub finished : Bool
  pub canceled : Bool
  pub show_logs : Bool
  pub last_item : Text
  pub err : Option Text

-- `tick()` and `tea.Quit`
pub data Cmd : Type 0 where
  tick quit : Cmd

-- What `Update` returns, and whether it calls `cancel`.
pub record Reply : Type 0 where
  pub model : Model
  pub command : Option Cmd
  pub cancels : Bool

pub data Message : Type 0 where
  window_size : ℕ → ℕ → Message
  key : Text → Message
  event : Report → Message
  progress_batch : List Queued → Message
  log_snapshot : Message
  ticked : Message
  finish : Option Text → Message

abbrev pub new_item : Text → Text → Item
new_item id label = record {
  id = id;
  label = label;
  detail = [];
  state = pending;
  current = 0;
  total = 0;
  bytes_current = 0;
  bytes_total = 0;
}

abbrev pub new_phase : Phase → Text → PhaseModel
new_phase id label = record { id = id; label = label; visible = false; order = []; items = [] }

-- The loop of `newModel` over the items of a phase.
unfoldable pub with_items : List ItemSpec → PhaseModel → PhaseModel
unfolding put
with_items [] p = p
with_items (i ∷ is) p =
    with_items is
      (record p { order = p.order ++ i.id ∷ []; items = put i.id (new_item i.id i.label) p.items })

unfoldable pub with_phases : List PhaseSpec → Model → Model
unfolding with_items put phase_name
with_phases [] m = m
with_phases (s ∷ ss) m = with_phases ss (record m {
  phases = m.phases ++ with_items s.items (new_phase s.id s.label) ∷ [];
  by_phase = put (phase_name s.id) (length m.phases) m.by_phase;
})

-- `newModel`
unfoldable pub new_model : List PhaseSpec → Model
unfolding with_phases
new_model specs = with_phases specs (record {
  phases = [];
  by_phase = [];
  width = 100;
  height = 24;
  frame = 0;
  ticking = false;
  finished = false;
  canceled = false;
  show_logs = false;
  last_item = [];
  err = none;
})

pub is_ended : State → Bool
unfolding is_state
is_ended s = is_state s complete || is_state s failed

-- A row of a phase that an event for `*` is about.
pub starred : Event → Item → Item
unfolding is_ended
starred e item = if is_ended item.state then item else record item {
  state = e.state;
  detail = if str_eq e.detail [] then item.detail else e.detail;
}

-- The end of the command, for one row.
pub ended : Option Text → Item → Item
unfolding is_state
ended err item = if not (is_state item.state running) then item else elim err [
  | none ↦ record item { state = complete }
  | some message ↦ record item { state = failed; detail = message }
]

-- A loop over the rows of a phase, in order.
unfoldable pub each_row : (Item → Item) → List Text → Items → Option Items
unfolding lookup put
each_row f [] items = some items
each_row f (id ∷ ids) items = elim (lookup id items) [
  | none ↦ none
  | some item ↦ each_row f ids (put id (f item) items)
]

abbrev pub with_rows : PhaseModel → Option Items → Option PhaseModel
with_rows p none = none
with_rows p (some items) = some (record p { items = items })

pub labelled : Event → Item → Item
labelled e item = if str_eq e.label [] then item else record item { label = e.label }

-- A row takes what an event says, but one that has ended takes no late update.
pub taken : Report → Item → Item
unfolding is_ended is_state
taken r item =
    if is_ended item.state && is_state r.event.state running && not r.restart
    then item
    else record item {
      state = r.event.state;
      detail = r.event.detail;
      current = r.event.current;
      total = r.event.total;
      bytes_current = r.event.bytes_current;
      bytes_total = r.event.bytes_total;
    }

unfoldable pub any_running : List Queued → Bool
unfolding is_state
any_running [] = false
any_running (q ∷ qs) = is_state q.report.event.state running || any_running qs

abbrev pub reply : Model → Option Reply
reply m = some (record { model = m; command = none; cancels = false })

-- A frame is asked for where rows run and none is on its way.
abbrev pub start_ticking : Bool → Option Model → Option Reply
start_ticking runs none = none
start_ticking runs (some m) =
    if runs && not m.ticking
    then some (record { model = record m { ticking = true }; command = some tick; cancels = false })
    else reply m

unfoldable pub finish_phases : Option Text → List PhaseModel → Option (List PhaseModel)
unfolding each_row ended
finish_phases err [] = some []
finish_phases err (p ∷ ps) = elim (with_rows p (each_row (ended err) p.order p.items)) [
  | none ↦ none
  | some q ↦ elim (finish_phases err ps) [ none ↦ none | some qs ↦ some (q ∷ qs) ]
]

pub key_pressed : Text → Model → Option Reply
key_pressed k m =
    if str_eq k (text "l")
    then reply (record m { show_logs = not m.show_logs })
    else if (str_eq k (text "q") || str_eq k (text "ctrl+c")) && not (m.finished || m.canceled)
    then some (record { model = record m { canceled = true }; command = some quit; cancels = true })
    else reply m

abbrev pub finish_reply : Option Text → Model → Option (List PhaseModel) → Option Reply
finish_reply err m none = none
finish_reply err m (some ps) = some (record {
  model = record m { finished = true; err = err; phases = ps };
  command = some quit;
  cancels = false;
})

abbrev pub put_phase : ℕ → Model → Option PhaseModel → Option Model
put_phase i m none = none
put_phase i m (some p) = some (record m { phases = set m.phases i p })

-- `name` is `displayName`, which reads the Unicode tables.
module _ (name : Text → Text) where
  pub label_of : Event → Text
  label_of e = if str_eq e.label [] then name e.id else e.label

  -- One row of a phase takes an event; a new row is the last.
  abbrev pub take_found : Report → PhaseModel → Option Item → PhaseModel
  take_found r p none = record p {
    order = p.order ++ r.event.id ∷ [];
    items =
        put r.event.id (taken r (labelled r.event (new_item r.event.id (label_of r.event))))
          p.items;
  }
  take_found r p (some item) = record p {
    items = put r.event.id (taken r (labelled r.event item)) p.items;
  }

  unfoldable pub take_event : Report → PhaseModel → PhaseModel
  unfolding label_of labelled taken lookup put
  take_event r p = take_found r p (lookup r.event.id p.items)

  unfoldable pub apply_to : Report → PhaseModel → Option PhaseModel
  unfolding each_row take_event starred
  apply_to r p =
      if str_eq r.event.id (text "*")
      then with_rows p (each_row (starred r.event) p.order p.items)
      else some (take_event r p)

  pub last_item_of : Event → PhaseModel → Text
  last_item_of e p =
      if not (str_eq e.label [])
      then e.label
      else if str_eq e.id (text "*")
      then p.label
      else name e.id

  unfoldable pub apply_at : Report → ℕ → PhaseModel → Model → Option Model
  unfolding apply_to last_item_of
  apply_at r i p m =
      put_phase i (record m { last_item = last_item_of r.event p })
        (apply_to r (record p { visible = true }))

  abbrev pub apply_found : Report → Model → Option ℕ → Option Model
  apply_found r m none =
      apply_at r (length m.phases) (new_phase r.event.phase (name (phase_name r.event.phase)))
        (record m {
          phases = m.phases ++ new_phase r.event.phase (name (phase_name r.event.phase)) ∷ [];
          by_phase = put (phase_name r.event.phase) (length m.phases) m.by_phase;
        })
  apply_found r m (some i) = apply_at r i (get_or m.phases i (new_phase r.event.phase [])) m

  -- `apply`
  unfoldable pub apply : Report → Model → Option Model
  unfolding apply_at lookup put phase_name
  apply r m = apply_found r m (lookup (phase_name r.event.phase) m.by_phase)

  unfoldable pub apply_all : List Queued → Model → Option Model
  unfolding apply
  apply_all [] m = some m
  apply_all (q ∷ qs) m = elim (apply q.report m) [ none ↦ none | some n ↦ apply_all qs n ]

  -- `Update`
  unfoldable pub update : Message → Model → Option Reply
  unfolding apply apply_all any_running finish_phases key_pressed is_state
  update (window_size width height) m =
      reply (record m { width = max width 40; height = max height 10 })
  update (key k) m = key_pressed k m
  update (event r) m = start_ticking (is_state r.event.state running) (apply r m)
  update (progress_batch batch) m = start_ticking (any_running batch) (apply_all batch m)
  update log_snapshot m = reply m
  update ticked m =
      if not m.finished && not m.canceled
      then some (record {
        model = record m { frame = m.frame + 1; ticking = true };
        command = some tick;
        cancels = false;
      })
      else reply (record m { frame = m.frame + 1; ticking = false })
  update (finish err) m = finish_reply err m (finish_phases err m.phases)

  -- The messages of a session, one after the other.
  unfoldable pub update_all : List Message → Model → Option Model
  unfolding update
  update_all [] m = some m
  update_all (message ∷ messages) m = elim (update message m) [
    | none ↦ none
    | some r ↦ update_all messages r.model
  ]
