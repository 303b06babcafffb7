-- ===== src/Orchestration/Prepare/Groups.antt =====
-- How `prepareReleases` groups the releases: every index is in the group of a commit, its own.
use atum.Base.{
  ℕ, zero, suc, ◌+◌, ◌<◌, ◌≤◌, some, List, [], ◌∷◌, ◌++◌, str_eq, str_eq→eq, length, get_elem?, set,
  ◌==◌, ◌≡◌, ◌≢◌, refl, sym, ap, ◌∙◌, ◌⊎◌, inl, inr, Bool-cases, if_cases, eq_of_==, ne_of_==,
  arith,
}
use atum.Ladder.{ClusterRelease}
use atum.Orchestration.Prepare.{Preparation, place, gather}

module _ {ℓ} {A : Type ℓ} where
  pub length-set : (xs : List A) (i : ℕ) (v : A) → length (set xs i v) ≡ length xs
  length-set [] i v = refl
  length-set (x ∷ xs) zero v = refl
  length-set (x ∷ xs) (suc i) v = ap suc (length-set xs i v)

  pub get_elem?-set_self :
      (xs : List A) (i : ℕ) (v : A) → i < length xs → get_elem? (set xs i v) i ≡ some v
  get_elem?-set_self [] i v h = absurd (omega arith)
  get_elem?-set_self (x ∷ xs) zero v h = refl
  get_elem?-set_self (x ∷ xs) (suc i) v h = get_elem?-set_self xs i v (omega arith)

  pub get_elem?-set_other :
      (xs : List A) (i j : ℕ) (v : A) → i ≢ j → get_elem? (set xs i v) j ≡ get_elem? xs j
  get_elem?-set_other [] i j v h = refl
  get_elem?-set_other (x ∷ xs) zero zero v h = absurd (h refl)
  get_elem?-set_other (x ∷ xs) zero (suc j) v h = refl
  get_elem?-set_other (x ∷ xs) (suc i) zero v h = refl
  get_elem?-set_other (x ∷ xs) (suc i) (suc j) v h =
      get_elem?-set_other xs i j v (λ e. h (ap suc e))

abbrev pub Among : ℕ → List ℕ → Type 0
Among i [] = ⊥
Among i (j ∷ js) = (j ≡ i) ⊎ Among i js

Among-append : (i : ℕ) (is js : List ℕ) → Among i is ⊎ Among i js → Among i (is ++ js)
Among-append i [] js (inl h) = absurd h
Among-append i [] js (inr h) = h
Among-append i (k ∷ is) js (inl (inl h)) = inl h
Among-append i (k ∷ is) js (inl (inr h)) = inr (Among-append i is js (inl h))
Among-append i (k ∷ is) js (inr h) = inr (Among-append i is js (inr h))

-- Some preparation has the index.
abbrev pub Covers : List Preparation → ℕ → Type 0
Covers [] i = ⊥
Covers (p ∷ ps) i = Among i p.indexes ⊎ Covers ps i

module _ (releases : List ClusterRelease) where
  -- The indices are those of releases with the commit of the first.
  abbrev pub Belong : ClusterRelease → List ℕ → Type 0
  Belong primary [] = Unit {0}
  Belong primary (i ∷ is) =
      ((r : ClusterRelease) × (get_elem? releases i ≡ some r)
        × (primary.kubespray.commit ≡ r.kubespray.commit))
      × Belong primary is

  abbrev pub AllBelong : List Preparation → Type 0
  AllBelong [] = Unit {0}
  AllBelong (p ∷ ps) = Belong p.primary p.indexes × AllBelong ps

  Belong-snoc :
      (primary r : ClusterRelease) (is : List ℕ) (i : ℕ)
      → Belong primary is
      → get_elem? releases i ≡ some r
      → primary.kubespray.commit ≡ r.kubespray.commit
      → Belong primary (is ++ i ∷ [])
  Belong-snoc primary r [] i h at same = ((r, at, same), tt)
  Belong-snoc primary r (j ∷ is) i h at same = (h.0, Belong-snoc primary r is i h.1 at same)

  -- `place` keeps what is covered, covers the index, and puts it where it belongs.
  place-AllBelong :
      (i : ℕ) (r : ClusterRelease) (ps : List Preparation)
      → get_elem? releases i ≡ some r
      → AllBelong ps
      → AllBelong (place i r ps)
  unfolding place
  place-AllBelong i r [] at h = (((r, at, refl), tt), tt)
  place-AllBelong i r (p ∷ ps) at h =
      if_cases AllBelong (str_eq p.primary.kubespray.commit r.kubespray.commit)
        (λ same. (
          Belong-snoc p.primary r p.indexes i h.0 at
              (str_eq→eq p.primary.kubespray.commit r.kubespray.commit same),
          h.1,
        ))
        (λ other. (h.0, place-AllBelong i r ps at h.1))

  place-Covers :
      (i j : ℕ) (r : ClusterRelease) (ps : List Preparation)
      → (i ≡ j) ⊎ Covers ps j
      → Covers (place i r ps) j
  unfolding place
  place-Covers i j r [] (inl e) = inl (inl e)
  place-Covers i j r [] (inr c) = absurd c
  place-Covers i j r (p ∷ ps) h =
      if_cases (λ x. Covers x j) (str_eq p.primary.kubespray.commit r.kubespray.commit)
        (λ same. added h) (λ other. kept h (λ k. place-Covers i j r ps k))
    where
      added : (i ≡ j) ⊎ Covers (p ∷ ps) j → Among j (p.indexes ++ i ∷ []) ⊎ Covers ps j
      added (inl e) = inl (Among-append j p.indexes (i ∷ []) (inr (inl e)))
      added (inr (inl a)) = inl (Among-append j p.indexes (i ∷ []) (inl a))
      added (inr (inr c)) = inr c

      kept :
          (i ≡ j) ⊎ Covers (p ∷ ps) j
          → ((i ≡ j) ⊎ Covers ps j → Covers (place i r ps) j)
          → Among j p.indexes ⊎ Covers (place i r ps) j
      kept (inl e) rec = inr (rec (inl e))
      kept (inr (inl a)) rec = inl a
      kept (inr (inr c)) rec = inr (rec (inr c))

  -- What is left of the releases from an index on.
  abbrev pub IsRest : ℕ → List ClusterRelease → Type 0
  IsRest i rs = (k : ℕ) → get_elem? rs k ≡ get_elem? releases (i + k)

  IsRest-tail :
      (i : ℕ) (r : ClusterRelease) (rs : List ClusterRelease)
      → IsRest i (r ∷ rs)
      → IsRest (suc i) rs
  IsRest-tail i r rs h k = h (suc k) ∙ ap (get_elem? releases) (omega arith)

  pub gather-AllBelong :
      (i : ℕ) (rs : List ClusterRelease) (ps : List Preparation)
      → IsRest i rs
      → AllBelong ps
      → AllBelong (gather i rs ps)
  unfolding gather
  gather-AllBelong i [] ps rest h = h
  gather-AllBelong i (r ∷ rs) ps rest h =
      gather-AllBelong (suc i) rs (place i r ps) (IsRest-tail i r rs rest)
        (place-AllBelong i r ps (ap (get_elem? releases) (omega arith) ∙ sym (rest 0)) h)

  pub gather-Covers :
      (i j : ℕ) (rs : List ClusterRelease) (ps : List Preparation)
      → Covers ps j ⊎ (i ≤ j × (j < i + length rs))
      → Covers (gather i rs ps) j
  unfolding gather
  gather-Covers i j [] ps (inl c) = c
  gather-Covers i j [] ps (inr (le, lt)) = absurd (omega arith)
  gather-Covers i j (r ∷ rs) ps (inl c) =
      gather-Covers (suc i) j rs (place i r ps) (inl (place-Covers i j r ps (inr c)))
  gather-Covers i j (r ∷ rs) ps (inr (le, lt)) = elim (Bool-cases (i == j)) [
    | inl here ↦
        gather-Covers (suc i) j rs (place i r ps)
          (inl (place-Covers i j r ps (inl (eq_of_== i j here))))
    | inr on ↦
        gather-Covers (suc i) j rs (place i r ps)
          (inr (ground (arith, ne_of_== i j on), omega arith))
  ]
