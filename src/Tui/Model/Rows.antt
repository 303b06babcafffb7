-- ===== src/Tui/Model/Rows.antt =====
-- Every row that a phase of cli/tui/model.go lists has an item, so that no message makes `Update`
-- panic.
use atum.Base.{
  ℕ, zero, suc, not, ◌&&◌, ◌||◌, Bool, true, Option, none, some, List, [], ◌∷◌, ◌++◌, Text, text,
  str_eq, str_eq_iff, length, set, get_or, ◌≡◌, refl, sym, ap, subst, ◌∙◌, inl, inr, Bool-cases,
  if_cases, lookup, put, lookup-put_self, lookup-put_other,
}
use atum.Tui.Resources.{running}
use atum.Tui.Session.{Report, Queued, is_state, phase_name}
use atum.Tui.Model.{
  Item, Items, PhaseModel, ItemSpec, PhaseSpec, Model, Reply, Message, window_size, key, event,
  progress_batch, log_snapshot, ticked, finish, new_phase, new_item, with_items, with_phases,
  new_model, starred, ended, each_row, with_rows, take_found, apply_found, put_phase, start_ticking,
  finish_reply, take_event, apply_to, apply_at, apply, apply_all, any_running, finish_phases,
  key_pressed, update, update_all,
}

abbrev pub Holds : Text → Items → Type 0
Holds id items = (item : Item) × (lookup id items ≡ some item)

-- Each of `ids` has an item.
abbrev pub Listed : List Text → Items → Type 0
Listed [] items = Unit {0}
Listed (id ∷ ids) items = Holds id items × Listed ids items

Holds-put : (j k : Text) (v : Item) (items : Items) → Holds j items → Holds j (put k v items)
Holds-put j k v items (w, h) = elim (Bool-cases (str_eq k j)) [
  | inl e ↦
      subst (λ x. Holds x (put k v items)) ((str_eq_iff k j).0 e) (v, lookup-put_self k v items)
  | inr e ↦ (w, lookup-put_other j k v items e ∙ h)
]

pub Listed-put :
    (k : Text) (v : Item) (ids : List Text) (items : Items)
    → Listed ids items
    → Listed ids (put k v items)
Listed-put k v [] items h = tt
Listed-put k v (id ∷ ids) items (h, hs) = (Holds-put id k v items h, Listed-put k v ids items hs)

Listed-append :
    (k : Text) (v : Item) (ids : List Text) (items : Items)
    → Listed ids items
    → Listed (ids ++ k ∷ []) (put k v items)
Listed-append k v [] items h = ((v, lookup-put_self k v items), tt)
Listed-append k v (id ∷ ids) items (h, hs) =
    (Holds-put id k v items h, Listed-append k v ids items hs)

-- A loop over rows that are listed comes to its end, and they stay listed.
pub each_row-Listed :
    (f : Item → Item) (all ids : List Text) (items : Items)
    → Listed all items
    → Listed ids items
    → (rows : Items) × (each_row f ids items ≡ some rows) × Listed all rows
unfolding each_row
each_row-Listed f all [] items h hs = (items, refl, h)
each_row-Listed f all (id ∷ ids) items h ((item, e), hs) =
    subst
      (λ o.
        (rows : Items) × ((elim o [ none ↦ none | some x ↦ each_row f ids (put id (f x) items) ])
          ≡ some rows)
        × Listed all rows)
      (sym e)
      (each_row-Listed f all ids (put id (f item) items) (Listed-put id (f item) all items h)
        (Listed-put id (f item) ids items hs))

abbrev pub HasRows : PhaseModel → Type 0
HasRows p = Listed p.order p.items

abbrev pub AllHaveRows : List PhaseModel → Type 0
AllHaveRows [] = Unit {0}
AllHaveRows (p ∷ ps) = HasRows p × AllHaveRows ps

pub with_rows-HasRows :
    (f : Item → Item) (p : PhaseModel)
    → HasRows p
    → (q : PhaseModel) × (with_rows p (each_row f p.order p.items) ≡ some q) × HasRows q
with_rows-HasRows f p h = (record p { items = looped.0 }, ap (with_rows p) looped.1, looped.2)
  where
    looped : (rows : Items) × (each_row f p.order p.items ≡ some rows) × Listed p.order rows
    looped = each_row-Listed f p.order p.order p.items h h

pub AllHaveRows-append :
    (ps : List PhaseModel) (p : PhaseModel)
    → AllHaveRows ps
    → HasRows p
    → AllHaveRows (ps ++ p ∷ [])
AllHaveRows-append [] p hs h = (h, tt)
AllHaveRows-append (q ∷ ps) p (k, hs) h = (k, AllHaveRows-append ps p hs h)

AllHaveRows-set :
    (ps : List PhaseModel) (i : ℕ) (p : PhaseModel)
    → AllHaveRows ps
    → HasRows p
    → AllHaveRows (set ps i p)
AllHaveRows-set [] i p hs h = tt
AllHaveRows-set (q ∷ ps) zero p (k, hs) h = (h, hs)
AllHaveRows-set (q ∷ ps) (suc i) p (k, hs) h = (k, AllHaveRows-set ps i p hs h)

pub HasRows-get_or :
    (ps : List PhaseModel) (i : ℕ) (d : PhaseModel)
    → AllHaveRows ps
    → HasRows d
    → HasRows (get_or ps i d)
HasRows-get_or [] i d hs h = h
HasRows-get_or (p ∷ ps) zero d (k, hs) h = k
HasRows-get_or (p ∷ ps) (suc i) d (k, hs) h = HasRows-get_or ps i d hs h

with_items-HasRows : (is : List ItemSpec) (p : PhaseModel) → HasRows p → HasRows (with_items is p)
unfolding with_items
with_items-HasRows [] p h = h
with_items-HasRows (i ∷ is) p h =
    with_items-HasRows is _ (Listed-append i.id (new_item i.id i.label) p.order p.items h)

with_phases-AllHaveRows :
    (specs : List PhaseSpec) (m : Model)
    → AllHaveRows m.phases
    → AllHaveRows (with_phases specs m).phases
unfolding with_phases
with_phases-AllHaveRows [] m h = h
with_phases-AllHaveRows (s ∷ specs) m h =
    with_phases-AllHaveRows specs _
      (AllHaveRows-append m.phases _ h (with_items-HasRows s.items (new_phase s.id s.label) tt))

pub new_model-AllHaveRows : (specs : List PhaseSpec) → AllHaveRows (new_model specs).phases
unfolding new_model
new_model-AllHaveRows specs = with_phases-AllHaveRows specs _ tt

abbrev Finishes : Option Text → List PhaseModel → Type 0
Finishes err ps = (qs : List PhaseModel) × (finish_phases err ps ≡ some qs) × AllHaveRows qs

pub finish_phases-cons :
    (err : Option Text) (p q : PhaseModel) (ps qs : List PhaseModel)
    → with_rows p (each_row (ended err) p.order p.items) ≡ some q
    → finish_phases err ps ≡ some qs
    → finish_phases err (p ∷ ps) ≡ some (q ∷ qs)
unfolding finish_phases
finish_phases-cons err p q ps qs e d =
    ap
      (λ o. elim o [
        | none ↦ none
        | some x ↦ elim (finish_phases err ps) [ none ↦ none | some xs ↦ some (x ∷ xs) ]
      ])
      e
    ∙ ap (λ o. elim o [ none ↦ none | some xs ↦ some (q ∷ xs) ]) d

finish_phases-one :
    (err : Option Text) (p : PhaseModel) (ps : List PhaseModel)
    → (q : PhaseModel) × (with_rows p (each_row (ended err) p.order p.items) ≡ some q) × HasRows q
    → Finishes err ps
    → Finishes err (p ∷ ps)
finish_phases-one err p ps (q, e, h) (qs, d, hs) =
    (q ∷ qs, finish_phases-cons err p q ps qs e d, (h, hs))

pub finish_phases-AllHaveRows :
    (err : Option Text) (ps : List PhaseModel) → AllHaveRows ps → Finishes err ps
unfolding finish_phases
finish_phases-AllHaveRows err [] h = ([], refl, tt)
finish_phases-AllHaveRows err (p ∷ ps) (h, hs) =
    finish_phases-one err p ps (with_rows-HasRows (ended err) p h)
      (finish_phases-AllHaveRows err ps hs)

-- The code goes on with a model whose rows all have items.
abbrev pub Keeps : Option Model → Type 0
Keeps o = (m : Model) × (o ≡ some m) × AllHaveRows m.phases

abbrev pub Replies : Option Reply → Type 0
Replies o = (r : Reply) × (o ≡ some r) × AllHaveRows r.model.phases

put_phase-Keeps :
    (i : ℕ) (m : Model) (o : Option PhaseModel)
    → (p : PhaseModel) × (o ≡ some p) × HasRows p
    → AllHaveRows m.phases
    → Keeps (put_phase i m o)
put_phase-Keeps i m o (p, e, h) hs =
    subst (λ x. Keeps (put_phase i m x)) (sym e)
      (record m { phases = set m.phases i p }, refl, AllHaveRows-set m.phases i p hs h)

module _ (name : Text → Text) where
  take_found-HasRows :
      (r : Report) (p : PhaseModel) (o : Option Item) → HasRows p → HasRows (take_found name r p o)
  take_found-HasRows r p none h = Listed-append r.event.id _ p.order p.items h
  take_found-HasRows r p (some item) h = Listed-put r.event.id _ p.order p.items h

  take_event-HasRows : (r : Report) (p : PhaseModel) → HasRows p → HasRows (take_event name r p)
  unfolding take_event
  take_event-HasRows r p h = take_found-HasRows r p (lookup r.event.id p.items) h

  pub apply_to-HasRows :
      (r : Report) (p : PhaseModel)
      → HasRows p
      → (q : PhaseModel) × (apply_to name r p ≡ some q) × HasRows q
  unfolding apply_to
  apply_to-HasRows r p h =
      if_cases (λ o. (q : PhaseModel) × (o ≡ some q) × HasRows q) (str_eq r.event.id (text "*"))
        (λ _. with_rows-HasRows (starred r.event) p h)
        (λ _. (take_event name r p, refl, take_event-HasRows r p h))

  apply_at-Keeps :
      (r : Report) (i : ℕ) (p : PhaseModel) (m : Model)
      → HasRows p
      → AllHaveRows m.phases
      → Keeps (apply_at name r i p m)
  unfolding apply_at
  apply_at-Keeps r i p m h hs =
      put_phase-Keeps i _ _ (apply_to-HasRows r (record p { visible = true }) h) hs

  apply_found-Keeps :
      (r : Report) (m : Model) (o : Option ℕ)
      → AllHaveRows m.phases
      → Keeps (apply_found name r m o)
  apply_found-Keeps r m none hs =
      apply_at-Keeps r (length m.phases) _ _ tt (AllHaveRows-append m.phases _ hs tt)
  apply_found-Keeps r m (some i) hs = apply_at-Keeps r i _ m (HasRows-get_or m.phases i _ hs tt) hs

  pub apply-Keeps : (r : Report) (m : Model) → AllHaveRows m.phases → Keeps (apply name r m)
  unfolding apply
  apply-Keeps r m hs = apply_found-Keeps r m (lookup (phase_name r.event.phase) m.by_phase) hs

  apply_all-Keeps :
      (qs : List Queued) (m : Model) → AllHaveRows m.phases → Keeps (apply_all name qs m)
  unfolding apply_all
  apply_all-Keeps [] m hs = (m, refl, hs)
  apply_all-Keeps (q ∷ qs) m hs =
      subst (λ o. Keeps (elim o [ none ↦ none | some n ↦ apply_all name qs n ])) (sym step.1)
        (apply_all-Keeps qs step.0 step.2)
    where
      step : Keeps (apply name q.report m)
      step = apply-Keeps q.report m hs

  start_ticking-Replies :
      (runs : Bool) (o : Option Model) → Keeps o → Replies (start_ticking runs o)
  start_ticking-Replies runs o (m, e, hs) =
      subst (λ x. Replies (start_ticking runs x)) (sym e)
        (if_cases Replies (runs && not m.ticking) (λ _. (_, refl, hs)) (λ _. (_, refl, hs)))

  key_pressed-Replies : (k : Text) (m : Model) → AllHaveRows m.phases → Replies (key_pressed k m)
  unfolding key_pressed
  key_pressed-Replies k m hs =
      if_cases Replies (str_eq k (text "l")) (λ _. (_, refl, hs))
        (λ _.
          if_cases Replies
            ((str_eq k (text "q") || str_eq k (text "ctrl+c")) && not (m.finished || m.canceled))
            (λ _. (_, refl, hs)) (λ _. (_, refl, hs)))

  finish_reply-Replies :
      (err : Option Text) (m : Model) (o : Option (List PhaseModel))
      → (qs : List PhaseModel) × (o ≡ some qs) × AllHaveRows qs
      → Replies (finish_reply err m o)
  finish_reply-Replies err m o (qs, e, hs) =
      subst (λ x. Replies (finish_reply err m x)) (sym e) (_, refl, hs)

  pub update-Replies :
      (message : Message) (m : Model) → AllHaveRows m.phases → Replies (update name message m)
  unfolding update
  update-Replies (window_size width height) m hs = (_, refl, hs)
  update-Replies (key k) m hs = key_pressed-Replies k m hs
  update-Replies (event r) m hs =
      start_ticking-Replies (is_state r.event.state running) (apply name r m) (apply-Keeps r m hs)
  update-Replies (progress_batch batch) m hs =
      start_ticking-Replies (any_running batch) (apply_all name batch m)
        (apply_all-Keeps batch m hs)
  update-Replies log_snapshot m hs = (_, refl, hs)
  update-Replies ticked m hs =
      if_cases Replies (not m.finished && not m.canceled) (λ _. (_, refl, hs)) (λ _. (_, refl, hs))
  update-Replies (finish err) m hs =
      finish_reply-Replies err m (finish_phases err m.phases)
        (finish_phases-AllHaveRows err m.phases hs)

  update_all-Keeps :
      (messages : List Message) (m : Model)
      → AllHaveRows m.phases
      → Keeps (update_all name messages m)
  unfolding update_all
  update_all-Keeps [] m hs = (m, refl, hs)
  update_all-Keeps (message ∷ messages) m hs =
      subst (λ o. Keeps (elim o [ none ↦ none | some r ↦ update_all name messages r.model ]))
        (sym step.1) (update_all-Keeps messages step.0.model step.2)
    where
      step : Replies (update name message m)
      step = update-Replies message m hs

-- Whatever phases the terminal starts with, and whatever messages it then receives in whatever
-- order, `Update` does not panic, and each row that a phase lists has an item.
pub update_all-returns :
    (name : Text → Text) (specs : List PhaseSpec) (messages : List Message)
    → (m : Model) × (update_all name messages (new_model specs) ≡ some m) × AllHaveRows m.phases
update_all-returns name specs messages =
    update_all-Keeps name messages (new_model specs) (new_model-AllHaveRows specs)
