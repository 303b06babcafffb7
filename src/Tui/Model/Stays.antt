-- ===== src/Tui/Model/Stays.antt =====
-- A row of cli/tui/model.go that has ended is changed by no late update.
use atum.Base.{
  ℕ, zero, suc, Option, none, some, some_injective, List, [], ◌∷◌, ◌++◌, Text, str_eq, str_eq_iff,
  set, get_or, ◌≡◌, sym, ap, subst, ◌∙◌, inl, inr, Bool-cases, Option-cases, lookup, put,
  lookup-put_self, lookup-put_other,
}
use atum.Tui.Model.{Item, Items, PhaseModel, each_row, with_rows}
use atum.Tui.Model.Rows.{Listed, Listed-put}

-- The item of a row satisfies `P`.
abbrev pub At : (Item → Type 0) → Text → Items → Type 0
At P id items = (item : Item) × (lookup id items ≡ some item) × P item

module _ (P : Item → Type 0) where
  pub At-put_self : (j : Text) (v : Item) (items : Items) → P v → At P j (put j v items)
  At-put_self j v items h = (v, lookup-put_self j v items, h)

  -- A row stays as `P` says where the row that is put does.
  pub At-put :
      (j k : Text) (v : Item) (items : Items)
      → (At P k items → P v)
      → At P j items
      → At P j (put k v items)
  At-put j k v items h a = elim (Bool-cases (str_eq k j)) [
    | inl e ↦
        subst (λ x. At P x (put k v items)) ((str_eq_iff k j).0 e)
          (At-put_self k v items (h (subst (λ x. At P x items) (sym ((str_eq_iff k j).0 e)) a)))
    | inr e ↦ (a.0, lookup-put_other j k v items e ∙ a.1, a.2)
  ]

  pub found :
      (k : Text) (item : Item) (items : Items) → lookup k items ≡ some item → At P k items → P item
  found k item items e (other, d, h) = subst P (some_injective other item (sym d ∙ e)) h

  pub each_row-At :
      (f : Item → Item) (j : Text) (ids : List Text) (items rows : Items)
      → ((x : Item) → P x → P (f x))
      → Listed ids items
      → each_row f ids items ≡ some rows
      → At P j items
      → At P j rows
  unfolding each_row
  each_row-At f j [] items rows keeps h e a = subst (At P j) (some_injective items rows e) a
  each_row-At f j (id ∷ ids) items rows keeps ((item, d), hs) e a =
      each_row-At f j ids (put id (f item) items) rows keeps (Listed-put id (f item) ids items hs)
        (sym (ap (λ o. elim o [ none ↦ none | some x ↦ each_row f ids (put id (f x) items) ]) d)
          ∙ e)
        (At-put j id (f item) items (λ b. keeps item (found id item items d b)) a)

  -- The same of the row `id` of the phase with index `i`.
  abbrev pub AtRow : ℕ → Text → List PhaseModel → Type 0
  AtRow i id [] = ⊥
  AtRow zero id (p ∷ ps) = At P id p.items
  AtRow (suc i) id (p ∷ ps) = AtRow i id ps

  pub AtRow-append :
      (i : ℕ) (id : Text) (ps : List PhaseModel) (p : PhaseModel)
      → AtRow i id ps
      → AtRow i id (ps ++ p ∷ [])
  AtRow-append i id [] p a = absurd a
  AtRow-append zero id (q ∷ ps) p a = a
  AtRow-append (suc i) id (q ∷ ps) p a = AtRow-append i id ps p a

  pub AtRow-set :
      (i j : ℕ) (id : Text) (ps : List PhaseModel) (d q : PhaseModel)
      → (At P id (get_or ps j d).items → At P id q.items)
      → AtRow i id ps
      → AtRow i id (set ps j q)
  AtRow-set i j id [] d q h a = absurd a
  AtRow-set zero zero id (p ∷ ps) d q h a = h a
  AtRow-set zero (suc j) id (p ∷ ps) d q h a = a
  AtRow-set (suc i) zero id (p ∷ ps) d q h a = a
  AtRow-set (suc i) (suc j) id (p ∷ ps) d q h a = AtRow-set i j id ps d q h a

  pub with_rows-At :
      (f : Item → Item) (j : Text) (p q : PhaseModel)
      → ((x : Item) → P x → P (f x))
      → Listed p.order p.items
      → with_rows p (each_row f p.order p.items) ≡ some q
      → At P j p.items
      → At P j q.items
  with_rows-At f j p q keeps h e a = elim (Option-cases (each_row f p.order p.items)) [
    | inl d ↦ absurd (none_some (sym (ap (with_rows p) d) ∙ e))
    | inr (rows, d) ↦
        subst (λ x. At P j x.items) (some_injective _ q (sym (ap (with_rows p) d) ∙ e))
          (each_row-At f j p.order p.items rows keeps h d a)
  ]
    where
      none_some : ◌≡◌ {A = Option PhaseModel} none (some q) → ⊥
      none_some h = cc
