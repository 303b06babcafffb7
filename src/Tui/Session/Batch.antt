-- ===== src/Tui/Session/Batch.antt =====
-- The batches that a session of cli/tui/session.go sends: every pending event, in the order of the
-- reports, whatever the order in which Go ranges over a map.
use atum.Base.{ℕ, ◌<◌, List, [], ◌∷◌, ◌≡◌, refl, sym, ap, subst, ◌∙◌, ◌⊎◌, inl, inr, arith}
use atum.Tui.Session.{Queued, insert_queued, sorted}

-- `Inserted q qs ps`: `ps` is `qs` with `q` put in somewhere.
abbrev Inserted : Queued → List Queued → List Queued → Type 0
Inserted q qs [] = ⊥
Inserted q [] (p ∷ ps) = (p ≡ q) × (ps ≡ [])
Inserted q (r ∷ rs) (p ∷ ps) = ((p ≡ q) × (ps ≡ r ∷ rs)) ⊎ ((p ≡ r) × Inserted q rs ps)

-- `Ranges qs ps`: `ps` has the elements of `qs` in some order.
abbrev pub Ranges : List Queued → List Queued → Type 0
Ranges [] ps = ps ≡ []
Ranges (q ∷ qs) ps = (rest : List Queued) × Ranges qs rest × Inserted q rest ps

abbrev pub Below : ℕ → List Queued → Type 0
Below n [] = Unit {0}
Below n (q ∷ qs) = (n < q.sequence) × Below n qs

-- Each sequence is above the ones before.
abbrev pub Increases : List Queued → Type 0
Increases [] = Unit {0}
Increases (q ∷ qs) = Below q.sequence qs × Increases qs

Below-Inserted :
    (n : ℕ) (q : Queued) (qs ps : List Queued)
    → Inserted q qs ps
    → n < q.sequence
    → Below n qs
    → Below n ps
Below-Inserted n q qs [] i lt below = absurd i
Below-Inserted n q [] (p ∷ ps) (e, d) lt below =
    (subst (λ x. n < x.sequence) (sym e) lt, subst (Below n) (sym d) tt)
Below-Inserted n q (r ∷ rs) (p ∷ ps) (inl (e, d)) lt below =
    (subst (λ x. n < x.sequence) (sym e) lt, subst (Below n) (sym d) below)
Below-Inserted n q (r ∷ rs) (p ∷ ps) (inr (e, i)) lt below =
    (subst (λ x. n < x.sequence) (sym e) below.0, Below-Inserted n q rs ps i lt below.1)

Below-Ranges : (n : ℕ) (qs ps : List Queued) → Ranges qs ps → Below n qs → Below n ps
Below-Ranges n [] ps e below = subst (Below n) (sym e) tt
Below-Ranges n (q ∷ qs) ps (rest, ranges, i) below =
    Below-Inserted n q rest ps i below.0 (Below-Ranges n qs rest ranges below.1)

-- Two insertions commute where the sequences differ.
insert_comm :
    (p q : Queued) (qs : List Queued)
    → q.sequence < p.sequence
    → insert_queued p (insert_queued q qs) ≡ insert_queued q (insert_queued p qs)
unfolding insert_queued
insert_comm p q [] lt = ground arith
insert_comm p q (r ∷ rs) lt = ground (arith, insert_comm p q rs lt)

insert-Below : (q : Queued) (qs : List Queued) → Below q.sequence qs → insert_queued q qs ≡ q ∷ qs
unfolding insert_queued
insert-Below q [] below = refl
insert-Below q (r ∷ rs) below = ground arith

sorted-Inserted :
    (q : Queued) (qs ps : List Queued)
    → Below q.sequence qs
    → Inserted q qs ps
    → sorted ps ≡ insert_queued q (sorted qs)
unfolding sorted
sorted-Inserted q qs [] below i = absurd i
sorted-Inserted q [] (p ∷ ps) below (e, d) =
    subst (λ x. sorted (x ∷ ps) ≡ q ∷ []) (sym e) (ap (λ x. insert_queued q (sorted x)) d)
sorted-Inserted q (r ∷ rs) (p ∷ ps) below (inl (e, d)) =
    subst (λ x. sorted (x ∷ ps) ≡ insert_queued q (sorted (r ∷ rs))) (sym e)
      (ap (λ x. insert_queued q (sorted x)) d)
sorted-Inserted q (r ∷ rs) (p ∷ ps) below (inr (e, i)) =
    subst (λ x. sorted (x ∷ ps) ≡ insert_queued q (sorted (r ∷ rs))) (sym e)
      (ap (insert_queued r) (sorted-Inserted q rs ps below.1 i)
        ∙ insert_comm r q (sorted rs) below.0)

pub sorted-Ranges : (qs ps : List Queued) → Increases qs → Ranges qs ps → sorted ps ≡ qs
unfolding sorted
sorted-Ranges [] ps grows e = ap sorted e
sorted-Ranges (q ∷ qs) ps grows (rest, ranges, i) =
    sorted-Inserted q rest ps (Below-Ranges q.sequence qs rest ranges grows.0) i
    ∙ ap (insert_queued q) (sorted-Ranges qs rest grows.1 ranges)
    ∙ insert-Below q qs grows.0
