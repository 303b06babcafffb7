-- ===== src/Orchestration/Prepare/Commits.antt =====
-- Each group of `prepareReleases` holds all releases of its commit, in their order.
use atum.Base.{
  ℕ, suc, true, false, List, [], ◌∷◌, ◌++◌, append-nil, append_assoc, Text, str_eq, str_eq_refl,
  str_eq→eq, if◌then◌else◌, ◌≡◌, refl, sym, ap, subst, ◌∙◌, if_cases, Bool-cases, inl, inr, arith,
}
use atum.Ladder.{ClusterRelease}
use atum.Orchestration.Prepare.{Preparation, place, gather}

-- The releases of a commit.
unfoldable pub of_commit : Text → List ClusterRelease → List ClusterRelease
of_commit commit [] = []
of_commit commit (r ∷ rs) =
    let rest = of_commit commit rs in if str_eq r.kubespray.commit commit then r ∷ rest else rest

of_commit-same :
    (commit : Text) (rs : List ClusterRelease) (r : ClusterRelease)
    → str_eq r.kubespray.commit commit ≡ true
    → of_commit commit (rs ++ r ∷ []) ≡ of_commit commit rs ++ r ∷ []
unfolding of_commit
of_commit-same commit [] r h = ground (arith, h)
of_commit-same commit (q ∷ rs) r h = ground (arith, of_commit-same commit rs r h)

of_commit-other :
    (commit : Text) (rs : List ClusterRelease) (r : ClusterRelease)
    → str_eq r.kubespray.commit commit ≡ false
    → of_commit commit (rs ++ r ∷ []) ≡ of_commit commit rs
unfolding of_commit
of_commit-other commit [] r h = ground (arith, h)
of_commit-other commit (q ∷ rs) r h = ground (arith, of_commit-other commit rs r h)

str_eq_flip : (a b : Text) → str_eq a b ≡ false → str_eq b a ≡ false
str_eq_flip a b h = elim (Bool-cases (str_eq b a)) [
  | inl e ↦
      absurd
        (true_false (sym (subst (λ x. str_eq x b ≡ true) (str_eq→eq b a e) (str_eq_refl b)) ∙ h))
  | inr e ↦ e
]
  where
    true_false : true ≡ false → ⊥
    true_false h = cc

-- No group is that of the commit.
abbrev IsNew : Text → List Preparation → Type 0
IsNew commit [] = Unit {0}
IsNew commit (p ∷ ps) = (str_eq p.primary.kubespray.commit commit ≡ false) × IsNew commit ps

abbrev AreApart : List Preparation → Type 0
AreApart [] = Unit {0}
AreApart (p ∷ ps) = IsNew p.primary.kubespray.commit ps × AreApart ps

-- The group has all releases of its commit.
abbrev pub IsWhole : List ClusterRelease → Preparation → Type 0
IsWhole releases p = p.primary ∷ p.others ≡ of_commit p.primary.kubespray.commit releases

abbrev pub AreWhole : List ClusterRelease → List Preparation → Type 0
AreWhole releases [] = Unit {0}
AreWhole releases (p ∷ ps) = IsWhole releases p × AreWhole releases ps

AreWhole-new :
    (before : List ClusterRelease) (r : ClusterRelease) (ps : List Preparation)
    → IsNew r.kubespray.commit ps
    → AreWhole before ps
    → AreWhole (before ++ r ∷ []) ps
AreWhole-new before r [] new whole = tt
AreWhole-new before r (p ∷ ps) (differ, new) (w, whole) = (
  w
      ∙ sym (
          of_commit-other p.primary.kubespray.commit before r
            (str_eq_flip p.primary.kubespray.commit r.kubespray.commit differ)),
  AreWhole-new before r ps new whole,
)

place-AreWhole :
    (i : ℕ) (before : List ClusterRelease) (r : ClusterRelease) (ps : List Preparation)
    → (IsNew r.kubespray.commit ps → of_commit r.kubespray.commit before ≡ [])
    → AreApart ps
    → AreWhole before ps
    → AreWhole (before ++ r ∷ []) (place i r ps)
unfolding place
place-AreWhole i before r [] first apart whole = (
  sym (
      of_commit-same r.kubespray.commit before r (str_eq_refl r.kubespray.commit)
      ∙ ap (λ l. l ++ r ∷ []) (first tt)),
  tt,
)
place-AreWhole i before r (p ∷ ps) first (new, apart) (w, whole) =
    if_cases (AreWhole (before ++ r ∷ [])) (str_eq p.primary.kubespray.commit r.kubespray.commit)
      (λ same. (
        ap (λ l. l ++ r ∷ []) w
            ∙ sym (
                of_commit-same p.primary.kubespray.commit before r (
                  subst (λ c. str_eq r.kubespray.commit c ≡ true)
                    (sym (str_eq→eq p.primary.kubespray.commit r.kubespray.commit same))
                    (str_eq_refl r.kubespray.commit))),
        AreWhole-new before r ps
            (subst (λ c. IsNew c ps) (str_eq→eq p.primary.kubespray.commit r.kubespray.commit same)
              new)
            whole,
      ))
      (λ differ. (
        w
            ∙ sym (
                of_commit-other p.primary.kubespray.commit before r
                  (str_eq_flip p.primary.kubespray.commit r.kubespray.commit differ)),
        place-AreWhole i before r ps (λ n. first (differ, n)) apart whole,
      ))

place-IsNew :
    (i : ℕ) (commit : Text) (r : ClusterRelease) (ps : List Preparation)
    → str_eq r.kubespray.commit commit ≡ false
    → IsNew commit ps
    → IsNew commit (place i r ps)
unfolding place
place-IsNew i commit r [] differ new = (differ, tt)
place-IsNew i commit r (p ∷ ps) differ (other, new) =
    if_cases (IsNew commit) (str_eq p.primary.kubespray.commit r.kubespray.commit)
      (λ _. (other, new)) (λ _. (other, place-IsNew i commit r ps differ new))

place-AreApart :
    (i : ℕ) (r : ClusterRelease) (ps : List Preparation) → AreApart ps → AreApart (place i r ps)
unfolding place
place-AreApart i r [] apart = (tt, tt)
place-AreApart i r (p ∷ ps) (new, apart) =
    if_cases AreApart (str_eq p.primary.kubespray.commit r.kubespray.commit) (λ _. (new, apart))
      (λ differ. (
        place-IsNew i p.primary.kubespray.commit r ps
            (str_eq_flip p.primary.kubespray.commit r.kubespray.commit differ) new,
        place-AreApart i r ps apart,
      ))

-- A commit without a group after the release had none before, and is another.
IsNew-before :
    (i : ℕ) (commit : Text) (r : ClusterRelease) (ps : List Preparation)
    → IsNew commit (place i r ps)
    → (str_eq r.kubespray.commit commit ≡ false) × IsNew commit ps
unfolding place
IsNew-before i commit r [] (differ, new) = (differ, tt)
IsNew-before i commit r (p ∷ ps) h =
    if_cases
      (λ x. IsNew commit x → (str_eq r.kubespray.commit commit ≡ false) × IsNew commit (p ∷ ps))
      (str_eq p.primary.kubespray.commit r.kubespray.commit)
      (λ same k. (
        subst (λ c. str_eq c commit ≡ false)
            (str_eq→eq p.primary.kubespray.commit r.kubespray.commit same) k.0,
        (k.0, k.1),
      ))
      (λ _ k. let rest = IsNew-before i commit r ps k.1 in (rest.0, (k.0, rest.1))) h

-- The groups are apart and whole, and every release before is in one.
abbrev AreGroups : List ClusterRelease → List Preparation → Type 0
AreGroups before ps =
    AreApart ps
    × AreWhole before ps
    × ((commit : Text) → IsNew commit ps → of_commit commit before ≡ [])

gather-AreGroups :
    (i : ℕ) (before rs : List ClusterRelease) (ps : List Preparation)
    → AreGroups before ps
    → AreGroups (before ++ rs) (gather i rs ps)
unfolding gather
gather-AreGroups i before [] ps g = subst (λ l. AreGroups l ps) (sym (append-nil before)) g
gather-AreGroups i before (r ∷ rs) ps (apart, whole, first) =
    subst (λ l. AreGroups l (gather (suc i) rs (place i r ps))) (append_assoc before (r ∷ []) rs)
      (gather-AreGroups (suc i) (before ++ r ∷ []) rs (place i r ps) (
        place-AreApart i r ps apart,
        place-AreWhole i before r ps (first r.kubespray.commit) apart whole,
        λ commit new.
            let old = IsNew-before i commit r ps new in
            of_commit-other commit before r old.0 ∙ first commit old.1,
      ))

pub gather-AreWhole : (releases : List ClusterRelease) → AreWhole releases (gather 0 releases [])
unfolding of_commit
gather-AreWhole releases = (gather-AreGroups 0 [] releases [] (tt, tt, λ commit new. refl)).1
