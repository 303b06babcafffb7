-- ===== src/Tui/Model/Late.antt =====
-- A row of cli/tui/model.go that has ended is changed by no late update.
use atum.Base.{
  ℕ, not, ◌&&◌, Bool, true, false, Option, none, some, some_injective, List, [], ◌∷◌, ◌++◌, Text,
  text, str_eq, length, get_or, ◌≡◌, refl, sym, ap, subst, ◌∙◌, if_cases, lookup, put, arith,
}
use atum.Tui.Resources.{running, Event}
use atum.Tui.Session.{Report, is_state, phase_name}
use atum.Tui.Model.{
  Item, PhaseModel, Model, new_phase, is_ended, starred, labelled, taken, take_found, take_event,
  apply_to, last_item_of, put_phase, apply_at, apply_found, apply,
}
use atum.Tui.Model.Rows.{HasRows, AllHaveRows, apply_to-HasRows, apply-Keeps, HasRows-get_or}
use atum.Tui.Model.Stays.{At, AtRow, At-put, AtRow-append, AtRow-set, with_rows-At, found}

-- Only the label may differ.
abbrev pub IsSame : Item → Item → Type 0
IsSame it x = record x { label = it.label } ≡ it

-- A report that a row is running, without the mark of an explicit start.
abbrev pub IsLate : Report → Type 0
IsLate r = (is_state r.event.state running && not r.restart) ≡ true

module _ (it : Item) (over : is_ended it.state ≡ true) where
  over_too : (x : Item) → IsSame it x → is_ended x.state ≡ true
  over_too x h = ap (λ y. is_ended y.state) h ∙ over

  labelled-IsSame : (e : Event) (x : Item) → IsSame it x → IsSame it (labelled e x)
  unfolding labelled
  labelled-IsSame e x h = if_cases (IsSame it) (str_eq e.label []) (λ _. h) (λ _. h)

  starred-IsSame : (e : Event) (x : Item) → IsSame it x → IsSame it (starred e x)
  unfolding starred
  starred-IsSame e x h =
      if_cases (IsSame it) (is_ended x.state) (λ _. h)
        (λ no. absurd (true_false (sym (over_too x h) ∙ no)))
    where
      true_false : true ≡ false → ⊥
      true_false h = cc

  taken-IsSame : (r : Report) (x : Item) → IsLate r → IsSame it x → IsSame it (taken r x)
  unfolding taken
  taken-IsSame r x late h =
      if_cases (IsSame it) (is_ended x.state && is_state r.event.state running && not r.restart)
        (λ _. h) (λ no. absurd (both _ _ _ (over_too x h) late no))
    where
      both : (a b c : Bool) → a ≡ true → (b && c) ≡ true → (a && b && c) ≡ false → ⊥
      both a b c h k l = ground (arith, h, k, l)

  module _ (name : Text → Text) (r : Report) (late : IsLate r) where
    take_found-At :
        (j : Text) (p : PhaseModel) (o : Option Item)
        → lookup r.event.id p.items ≡ o
        → At (IsSame it) j p.items
        → At (IsSame it) j (take_found name r p o).items
    take_found-At j p none e a =
        At-put (IsSame it) j r.event.id _ p.items (λ (x, d, h). absurd (none_some x (sym e ∙ d))) a
      where
        none_some : (x : Item) → ◌≡◌ {A = Option Item} none (some x) → ⊥
        none_some x h = cc
    take_found-At j p (some item) e a =
        At-put (IsSame it) j r.event.id _ p.items
          (λ b.
            taken-IsSame r (labelled r.event item) late
              (labelled-IsSame r.event item (found (IsSame it) r.event.id item p.items e b)))
          a

    take_event-At :
        (j : Text) (p : PhaseModel)
        → At (IsSame it) j p.items
        → At (IsSame it) j (take_event name r p).items
    unfolding take_event
    take_event-At j p a = take_found-At j p (lookup r.event.id p.items) refl a

    apply_to-At :
        (j : Text) (p q : PhaseModel)
        → HasRows p
        → apply_to name r p ≡ some q
        → At (IsSame it) j p.items
        → At (IsSame it) j q.items
    unfolding apply_to
    apply_to-At j p q h e a =
        if_cases (λ o. o ≡ some q → At (IsSame it) j q.items) (str_eq r.event.id (text "*"))
          (λ _ d. with_rows-At (IsSame it) (starred r.event) j p q (starred-IsSame r.event) h d a)
          (λ _ d.
            subst (λ x. At (IsSame it) j x.items) (some_injective (take_event name r p) q d)
              (take_event-At j p a))
          e

    put_phase-AtRow :
        (i j : ℕ) (id : Text) (p : PhaseModel) (d : PhaseModel) (m n : Model)
        → get_or m.phases i d ≡ p
        → (q : PhaseModel) × (apply_to name r (record p { visible = true }) ≡ some q) × HasRows q
        → HasRows p
        → put_phase i m (apply_to name r (record p { visible = true })) ≡ some n
        → AtRow (IsSame it) j id m.phases
        → AtRow (IsSame it) j id n.phases
    put_phase-AtRow i j id p d m n g (q, e, _) h k a =
        subst (λ x. AtRow (IsSame it) j id x.phases)
          (some_injective _ n (sym (ap (put_phase i m) e) ∙ k))
          (AtRow-set (IsSame it) j i id m.phases d q
            (λ b.
              apply_to-At id (record p { visible = true }) q h e
                (subst (λ x. At (IsSame it) id x.items) g b))
            a)

    apply_at-AtRow :
        (i j : ℕ) (id : Text) (d : PhaseModel) (p : PhaseModel) (m n : Model)
        → get_or m.phases i d ≡ p
        → HasRows p
        → apply_at name r i p m ≡ some n
        → AtRow (IsSame it) j id m.phases
        → AtRow (IsSame it) j id n.phases
    unfolding apply_at
    apply_at-AtRow i j id d p m n g h e a =
        put_phase-AtRow i j id p d (record m { last_item = last_item_of name r.event p }) n g
          (apply_to-HasRows name r (record p { visible = true }) h) h e a

    last_phase : (ps : List PhaseModel) (p : PhaseModel) → get_or (ps ++ p ∷ []) (length ps) p ≡ p
    last_phase [] p = refl
    last_phase (q ∷ ps) p = last_phase ps p

    apply_found-AtRow :
        (j : ℕ) (id : Text) (m n : Model) (o : Option ℕ)
        → AllHaveRows m.phases
        → apply_found name r m o ≡ some n
        → AtRow (IsSame it) j id m.phases
        → AtRow (IsSame it) j id n.phases
    apply_found-AtRow j id m n none hs e a =
        apply_at-AtRow (length m.phases) j id fresh fresh
          (record m {
            phases = m.phases ++ fresh ∷ [];
            by_phase = put (phase_name r.event.phase) (length m.phases) m.by_phase;
          })
          n (last_phase m.phases fresh) tt e (AtRow-append (IsSame it) j id m.phases fresh a)
      where
        fresh : PhaseModel
        fresh = new_phase r.event.phase (name (phase_name r.event.phase))
    apply_found-AtRow j id m n (some i) hs e a =
        apply_at-AtRow i j id (new_phase r.event.phase [])
          (get_or m.phases i (new_phase r.event.phase [])) m n refl
          (HasRows-get_or m.phases i _ hs tt) e a

  -- An update that says only that a row runs, without an explicit start, leaves every row that has
  -- ended as it is, but for the label: its state, its detail and its numbers stay, whether the
  -- update is about that row, another one or all rows of a phase.
  pub apply-late :
      (name : Text → Text) (r : Report) (j : ℕ) (id : Text) (m : Model)
      → IsLate r
      → AllHaveRows m.phases
      → AtRow (IsSame it) j id m.phases
      → (n : Model) × (apply name r m ≡ some n) × AtRow (IsSame it) j id n.phases
  unfolding apply
  apply-late name r j id m late hs a = (
    (apply-Keeps name r m hs).0,
    (apply-Keeps name r m hs).1,
    apply_found-AtRow name r late j id m (apply-Keeps name r m hs).0
        (lookup (phase_name r.event.phase) m.by_phase) hs (apply-Keeps name r m hs).1 a,
  )
