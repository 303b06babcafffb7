-- ===== src/Orchestration/Health/Pods.antt =====
-- What `waitHealthy` of cli/orchestration/health.go asks of the pods, and that its loop decides it.
use atum.Base.{
  ℕ, ◌+◌, ◌<◌, true, false, Option, none, some, List, [], ◌∷◌, ◌++◌, text, str_eq, str_eq_iff,
  str_eq→eq, length, length-append, ◌≡◌, ◌≢◌, ◌↔◌, refl, ap, subst, ◌⊎◌, inl, inr, Bool-cases,
  arith,
}
use atum.Orchestration.Health.{
  Pod, PodPage, succeeded, failed, unsettled, any_unsettled, settled_pages,
}

abbrev pub All {ℓ κ} : {A : Type ℓ} → (A → Type κ) → List A → Type κ
All P [] = Unit
All P (x ∷ xs) = P x × All P xs

-- A pod that stays: it is not deleted, has not failed, and is ready or has succeeded.
pub record IsSettled (p : Pod) : Type 0 where
  pub kept : p.deleting ≡ false
  pub unbroken : p.phase ≢ text "Failed"
  pub done : (p.phase ≡ text "Succeeded") ⊎ (p.ready ≡ true)

-- The pods that the pages list, up to the first page that is the last.
abbrev pub Lists : List (Option PodPage) → List Pod → Type 0
Lists [] ps = ⊥
Lists (none ∷ pages) ps = ⊥
Lists (some page ∷ pages) ps =
    (page.continuation ≡ [] × (ps ≡ page.items))
    ⊎ (page.continuation ≢ [] × ((rest : List Pod) × (ps ≡ page.items ++ rest) × Lists pages rest))

IsSettled-unsettled : (p : Pod) → unsettled p ≡ false → IsSettled p
unfolding unsettled succeeded failed
IsSettled-unsettled p h = record {
  kept = ground (arith, h);
  unbroken = ground (arith, h, str_eq_iff p.phase (text "Failed"));
  done = ground (arith, h, str_eq_iff p.phase (text "Succeeded"));
}

unsettled-IsSettled : (p : Pod) → IsSettled p → unsettled p ≡ false
unfolding unsettled succeeded failed
unsettled-IsSettled p is = ground (
  arith,
  is.kept,
  is.unbroken,
  is.done,
  str_eq_iff p.phase (text "Failed"),
  str_eq_iff p.phase (text "Succeeded"),
)

any_unsettled_iff : (ps : List Pod) → (any_unsettled ps ≡ false) ↔ All IsSettled ps
unfolding any_unsettled
any_unsettled_iff [] = (λ h. tt, λ h. refl)
any_unsettled_iff (p ∷ ps) = (
  λ h. (IsSettled-unsettled p (ground (arith, h)), (any_unsettled_iff ps).0 (ground (arith, h))),
  λ h. ground (arith, unsettled-IsSettled p h.0, (any_unsettled_iff ps).1 h.1),
)

All-append {ℓ κ} :
    {A : Type ℓ} (P : A → Type κ) (xs ys : List A) → All P (xs ++ ys) ↔ (All P xs × All P ys)
All-append P [] ys = (λ h. (tt, h), λ h. h.1)
All-append P (x ∷ xs) ys = (
  λ h. let (a, b) = (All-append P xs ys).0 h.1 in ((h.0, a), b),
  λ h. (h.0.0, (All-append P xs ys).1 (h.0.1, h.1)),
)

pub settled_pages_sound :
    (seen : ℕ) (pages : List (Option PodPage))
    → settled_pages seen pages ≡ true
    → (ps : List Pod) × Lists pages ps × All IsSettled ps × (0 < seen + length ps)
unfolding settled_pages
settled_pages_sound seen [] h = cc
settled_pages_sound seen (none ∷ pages) h = cc
settled_pages_sound seen (some page ∷ pages) h = elim (Bool-cases (any_unsettled page.items)) [
  | inl bad ↦ absurd (ground (arith, h, bad))
  | inr good ↦ elim (Bool-cases (str_eq page.continuation [])) [
    | inl last ↦ (
      page.items,
      inl (str_eq→eq page.continuation [] last, refl),
      (any_unsettled_iff page.items).0 good,
      ground (arith, h, good, last),
    )
    | inr more ↦
        further
          (settled_pages_sound (seen + length page.items) pages (ground (arith, h, good, more)))
          good (ground (arith, more, str_eq_iff page.continuation []))
  ]
]
  where
    further :
        ((ps : List Pod) × Lists pages ps
          × All IsSettled ps
          × (0 < seen + length page.items + length ps))
        → any_unsettled page.items ≡ false
        → page.continuation ≢ []
        → (ps : List Pod) × Lists (some page ∷ pages) ps × All IsSettled ps × (0 < seen + length ps)
    further (ps, listed, settled, some_seen) good more = (
      page.items ++ ps,
      inr (more, (ps, refl, listed)),
      (All-append IsSettled page.items ps).1 ((any_unsettled_iff page.items).0 good, settled),
      omega (arith, length-append page.items ps),
    )

pub settled_pages_complete :
    (seen : ℕ) (pages : List (Option PodPage)) (ps : List Pod)
    → Lists pages ps
    → All IsSettled ps
    → 0 < seen + length ps
    → settled_pages seen pages ≡ true
unfolding settled_pages
settled_pages_complete seen [] ps listed settled h = absurd listed
settled_pages_complete seen (none ∷ pages) ps listed settled h = absurd listed
settled_pages_complete seen (some page ∷ pages) ps (inl (last, e)) settled h = ground (
  arith,
  str_eq_iff page.continuation [],
  (any_unsettled_iff page.items).1 (subst (All IsSettled) e settled),
  ap length e,
)
settled_pages_complete seen (some page ∷ pages) ps (inr (more, (rest, e, listed))) settled h =
    let parts = (All-append IsSettled page.items rest).0 (subst (All IsSettled) e settled) in
    let count : 0 < seen + length page.items + length rest =
      omega (arith, ap length e, length-append page.items rest) in
    ground (
      arith,
      str_eq_iff page.continuation [],
      (any_unsettled_iff page.items).1 parts.0,
      settled_pages_complete (seen + length page.items) pages rest listed parts.1 count,
    )
