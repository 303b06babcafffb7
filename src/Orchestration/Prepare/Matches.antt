-- ===== src/Orchestration/Prepare/Matches.antt =====
-- Every toolchain that `prepareReleases` returns is that of its release.
use atum.Base.{
  Text, ℕ, zero, suc, ◌<◌, some, List, [], ◌∷◌, length, get_elem?, lt-of_get_elem?, set, replicate,
  ◌==◌, ◌≡◌, ◌≢◌, refl, ap, subst, ◌∙◌, ◌⊎◌, inl, inr, Bool-cases, eq_of_==, ne_of_==, arith,
}
use atum.Ladder.{ClusterRelease}
use atum.Orchestration.{Error, Result, ok, err, panic, not_prepared}
use atum.Orchestration.Prepare.{
  Toolchain, zero_toolchain, Preparation, Hydrate, gather, assign, run_preparations,
  prepare_releases,
}
use atum.Orchestration.Prepare.Commits.{of_commit, AreWhole, gather-AreWhole}
use atum.Orchestration.Prepare.Groups.{
  length-set, get_elem?-set_self, get_elem?-set_other, Among, Covers, Belong, AllBelong,
  gather-AllBelong, gather-Covers,
}

length-replicate {ℓ} : {A : Type ℓ} (n : ℕ) (a : A) → length (replicate n a) ≡ n
length-replicate zero a = refl
length-replicate (suc n) a = ap suc (length-replicate n a)

module _ (hydrate : Hydrate) (releases : List ClusterRelease) where
  -- The toolchain at an index is one that was prepared for all releases of the same commit, by the
  -- first of them, and names the release at the index.
  pub record IsPrepared (i : ℕ) (ts : List Toolchain) : Type 0 where
    pub release : ClusterRelease
    pub primary : ClusterRelease
    pub others : List ClusterRelease
    pub toolchain : Toolchain
    pub at : get_elem? releases i ≡ some release
    pub same_commit : primary.kubespray.commit ≡ release.kubespray.commit
    pub whole : primary ∷ others ≡ of_commit primary.kubespray.commit releases
    pub hydrated : hydrate primary (primary ∷ others) ≡ inl toolchain
    pub stored : get_elem? ts i ≡ some (record toolchain { release = release })

  -- The preparation for all releases of a commit has failed with the error.
  abbrev Fails : Error → Type 0
  Fails e =
      (primary : ClusterRelease) × (others : List ClusterRelease) × (message : Text) × (primary
          ∷ others
        ≡ of_commit primary.kubespray.commit releases)
      × (hydrate primary (primary ∷ others) ≡ inr message)
      × (e ≡ not_prepared primary.kubernetes primary.kubespray.version message)

  -- The outcome: a toolchain for each release, or the error of a preparation.
  abbrev pub Prepared : Result (List Toolchain) → Type 0
  Prepared (ok ts) =
      (length ts ≡ length releases) × ((i : ℕ) → i < length releases → IsPrepared i ts)
  Prepared (err e) = Fails e
  Prepared panic = ⊥

  module _ (primary : ClusterRelease) (others : List ClusterRelease) (t : Toolchain)
      (prepared : hydrate primary (primary ∷ others) ≡ inl t)
      (whole : primary ∷ others ≡ of_commit primary.kubespray.commit releases) where
    set-IsPrepared :
        (i j : ℕ) (r : ClusterRelease) (ts : List Toolchain)
        → get_elem? releases i ≡ some r
        → primary.kubespray.commit ≡ r.kubespray.commit
        → i < length ts
        → IsPrepared j ts ⊎ (i ≡ j)
        → IsPrepared j (set ts i (record t { release = r }))
    set-IsPrepared i j r ts at same lt h = elim (Bool-cases (i == j)) [
      | inl here ↦
          subst (λ k. IsPrepared k (set ts i (record t { release = r }))) (eq_of_== i j here)
            (record {
              release = r;
              primary = primary;
              others = others;
              toolchain = t;
              at = at;
              same_commit = same;
              whole = whole;
              hydrated = prepared;
              stored = get_elem?-set_self ts i (record t { release = r }) lt;
            })
      | inr other ↦ kept h (ne_of_== i j other)
    ]
      where
        kept :
            IsPrepared j ts ⊎ (i ≡ j) → i ≢ j → IsPrepared j (set ts i (record t { release = r }))
        kept (inr e) differ = absurd (differ e)
        kept (inl p) differ = record {
          release = p.release;
          primary = p.primary;
          others = p.others;
          toolchain = p.toolchain;
          at = p.at;
          same_commit = p.same_commit;
          whole = p.whole;
          hydrated = p.hydrated;
          stored = get_elem?-set_other ts i j (record t { release = r }) differ ∙ p.stored;
        }

    assign_lem :
        (is : List ℕ) (ts : List Toolchain)
        → Belong releases primary is
        → length ts ≡ length releases
        → (ts' : List Toolchain) × (assign releases t is ts ≡ ok ts')
          × (length ts' ≡ length releases)
          × ((j : ℕ) → j < length releases → IsPrepared j ts ⊎ Among j is → IsPrepared j ts')
    unfolding assign
    assign_lem [] ts belong same = (ts, refl, same, λ j lt h. only j h)
      where
        only : (j : ℕ) → IsPrepared j ts ⊎ ⊥ → IsPrepared j ts
        only j (inl p) = p
        only j (inr a) = absurd a
    assign_lem (i ∷ is) ts ((r, at, commit), belong) same = step (
        assign_lem is (set ts i (record t { release = r })) belong
          (length-set ts i (record t { release = r }) ∙ same))
      where
        step :
            ((ts' : List Toolchain) × (assign releases t is (set ts i (record t { release = r }))
                ≡ ok ts')
              × (length ts' ≡ length releases)
              × ((j : ℕ)
                  → j < length releases
                  → IsPrepared j (set ts i (record t { release = r })) ⊎ Among j is
                  → IsPrepared j ts'))
            → (ts' : List Toolchain) × (assign releases t (i ∷ is) ts ≡ ok ts')
              × (length ts' ≡ length releases)
              × ((j : ℕ)
                  → j < length releases
                  → IsPrepared j ts ⊎ Among j (i ∷ is)
                  → IsPrepared j ts')
        step (ts', e, len, filled) =
            (ts', rw (at, assign) e, len, λ j lt h. filled j lt (first j lt h))
          where
            first :
                (j : ℕ)
                → j < length releases
                → IsPrepared j ts ⊎ Among j (i ∷ is)
                → IsPrepared j (set ts i (record t { release = r })) ⊎ Among j is
            first j lt (inr (inr a)) = inr a
            first j lt (inl p) = inl (
                set-IsPrepared i j r ts at commit
                  (omega (arith, same, lt-of_get_elem? releases i r at)) (inl p))
            first j lt (inr (inl e)) = inl (
                set-IsPrepared i j r ts at commit
                  (omega (arith, same, lt-of_get_elem? releases i r at)) (inr e))

  run_preparations-Prepared :
      (ps : List Preparation) (ts : List Toolchain)
      → AreWhole releases ps
      → AllBelong releases ps
      → length ts ≡ length releases
      → ((j : ℕ) → j < length releases → IsPrepared j ts ⊎ Covers ps j)
      → Prepared (run_preparations hydrate releases ps ts)
  unfolding run_preparations
  run_preparations-Prepared [] ts whole belong same filled = (same, λ j lt. only j (filled j lt))
    where
      only : (j : ℕ) → IsPrepared j ts ⊎ ⊥ → IsPrepared j ts
      only j (inl p) = p
      only j (inr c) = absurd c
  run_preparations-Prepared (p ∷ ps) ts whole belong same filled =
      split (hydrate p.primary (p.primary ∷ p.others)) refl
        (λ ts' len known. run_preparations-Prepared ps ts' whole.1 belong.1 len known)
    where
      split :
          (o : Toolchain ⊎ Text)
          → hydrate p.primary (p.primary ∷ p.others) ≡ o
          → ((ts' : List Toolchain)
              → length ts' ≡ length releases
              → ((j : ℕ) → j < length releases → IsPrepared j ts' ⊎ Covers ps j)
              → Prepared (run_preparations hydrate releases ps ts'))
          → Prepared (run_preparations hydrate releases (p ∷ ps) ts)
      split (inr message) e later =
          rw (e, run_preparations) (p.primary, p.others, message, whole.0, e, refl)
      split (inl t) e later =
          let (ts', done, len, known) =
            assign_lem p.primary p.others t e whole.0 p.indexes ts belong.0 same in
          rw (e, run_preparations)
            (rw done (later ts' len (λ j lt. next ts' j lt known (filled j lt))))
        where
          next :
              (ts' : List Toolchain) (j : ℕ)
              → j < length releases
              → ((k : ℕ)
                  → k < length releases
                  → IsPrepared k ts ⊎ Among k p.indexes
                  → IsPrepared k ts')
              → IsPrepared j ts ⊎ Covers (p ∷ ps) j
              → IsPrepared j ts' ⊎ Covers ps j
          next ts' j lt known (inl is) = inl (known j lt (inl is))
          next ts' j lt known (inr (inl a)) = inl (known j lt (inr a))
          next ts' j lt known (inr (inr c)) = inr c

  -- `prepareReleases` returns a toolchain for each release, in their order: it names that release, and
  -- is else what the preparation of all releases of its commit of Kubespray has returned, under the first
  -- of them. An error is that of such a preparation, with the versions of its first release. No index is
  -- ever out of range.
  pub prepare_releases-Prepared : Prepared (prepare_releases hydrate releases)
  unfolding prepare_releases
  prepare_releases-Prepared =
      run_preparations-Prepared (gather 0 releases []) (replicate (length releases) zero_toolchain)
        (gather-AreWhole releases)
        (gather-AllBelong releases 0 releases [] (λ k. ap (get_elem? releases) (omega arith)) tt)
        (length-replicate (length releases) zero_toolchain)
        (λ j lt. inr (gather-Covers releases 0 j releases [] (inr (omega arith, omega arith))))
