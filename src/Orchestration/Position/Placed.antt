-- ===== src/Orchestration/Position/Placed.antt =====
-- What `liveReleasePosition` has found when it returns no error.
use atum.Base.{
  ℕ, suc, ◌+◌, ◌<◌, true, false, ◌&&◌, ◌||◌, Option, none, some, List, [], ◌∷◌, Text, str_eq,
  str_eq→eq, length, get_elem?, lt-of_get_elem?, ◌==◌, ltb, ◌≡◌, refl, sym, ap, ap₂, subst, ◌∙◌,
  inl, inr, Bool-cases, some_injective, arith,
}
use atum.Ladder.{ClusterRelease, Semver, IsSemver}
use atum.Ladder.Validate.Admitted.{Chain}
use atum.Ladder.Validate.Sorted.{Chain-IsVersionOf, Chain-sorted, print_injective}
use atum.Orchestration.{Project, ok, ◌>>=◌, or_error, unparsable_live, unparsable_target}
use atum.Orchestration.Position.{
  release_index, LiveReleasePosition, positioned, live_release_position,
}

-- The index that is found is in range, and the release there has the version.
pub get_elem?-release_index :
    (rs : List ClusterRelease) (version : Text) (i : ℕ)
    → release_index rs version ≡ some i
    → (r : ClusterRelease) × (get_elem? rs i ≡ some r) × (r.kubernetes ≡ version)
unfolding release_index
get_elem?-release_index [] version i h = cc
get_elem?-release_index (r ∷ rs) version i h = elim (Bool-cases (str_eq r.kubernetes version)) [
  | inl here ↦ (r, found (some_injective 0 i (rw here at h)), str_eq→eq r.kubernetes version here)
  | inr on ↦
      behind (release_index rs version) (rw on at h) (λ j e. get_elem?-release_index rs version j e)
        refl
]
  where
    found : ◌≡◌ {A = ℕ} 0 i → get_elem? (r ∷ rs) i ≡ some r
    found e = subst (λ k. get_elem? (r ∷ rs) k ≡ some r) e refl

    behind :
        (o : Option ℕ)
        → (elim o [ none ↦ none | some j ↦ some (suc j) ]) ≡ some i
        → ((j : ℕ)
            → release_index rs version ≡ some j
            → (s : ClusterRelease) × (get_elem? rs j ≡ some s) × (s.kubernetes ≡ version))
        → release_index rs version ≡ o
        → (s : ClusterRelease) × (get_elem? (r ∷ rs) i ≡ some s) × (s.kubernetes ≡ version)
    behind none e k d = cc
    behind (some j) e k d =
        subst
          (λ n. (s : ClusterRelease) × (get_elem? (r ∷ rs) n ≡ some s) × (s.kubernetes ≡ version))
          (some_injective (suc j) i e) (k j d)

module _ {V C : Type 0} (lib : Semver V C) where
  -- The facts that the tests have established, with the index of the target.
  pub record IsPlaced (releases : List ClusterRelease) (position : LiveReleasePosition V) (j : ℕ)
      : Type 0 where
    pub not_newer : lib.greater_than position.current position.target ≡ false
    pub at_current :
        release_index releases (lib.print position.current) ≡ some position.current_index
    pub at_target : release_index releases (lib.print position.target) ≡ some j
    pub earlier :
        (ltb j position.current_index
          || lib.less_than position.current position.target && position.current_index == j)
        ≡ false

  abbrev or_zero : Option ℕ → ℕ
  or_zero none = 0
  or_zero (some j) = j

  positioned-IsPlaced :
      (releases : List ClusterRelease) (current target : V) (position : LiveReleasePosition V)
      → positioned lib releases current target ≡ ok position
      → (position.current ≡ current)
        × (position.target ≡ target)
        × IsPlaced releases position (or_zero (release_index releases (lib.print target)))
  unfolding positioned
  positioned-IsPlaced releases current target position h = (
    ground arith,
    ground arith,
    record {
      not_newer = ground arith;
      at_current = ground arith;
      at_target = ground arith;
      earlier = ground arith;
    },
  )

  pub live_release_position-IsPlaced :
      (project : Project) (live : Text) (t : ClusterRelease) (position : LiveReleasePosition V)
      → live_release_position lib project live t ≡ ok position
      → (lib.new_version live ≡ some position.current)
        × (lib.new_version t.kubernetes ≡ some position.target)
        × ((j : ℕ) × IsPlaced project.releases position j)
  unfolding live_release_position
  live_release_position-IsPlaced project live t position h =
      split (lib.new_version live) (lib.new_version t.kubernetes) refl refl h
    where
      split :
          (a b : Option V)
          → lib.new_version live ≡ a
          → lib.new_version t.kubernetes ≡ b
          → (or_error (unparsable_live live) a >>= λ current.
              or_error (unparsable_target t.kubernetes) b >>= λ target.
              positioned lib project.releases current target)
            ≡ ok position
          → (lib.new_version live ≡ some position.current)
            × (lib.new_version t.kubernetes ≡ some position.target)
            × ((j : ℕ) × IsPlaced project.releases position j)
      split none b e d h = cc
      split (some current) none e d h = cc
      split (some current) (some target) e d h =
          let (c, t', placed) = positioned-IsPlaced project.releases current target position h in
          (e ∙ ap some (sym c), d ∙ ap some (sym t'), (_, placed))

  module _ (laws : IsSemver lib) where
    -- A release further on names a later version.
    placed_later :
        (releases : List ClusterRelease) (i j : ℕ) (u v : V)
        → Chain lib none releases
        → release_index releases (lib.print u) ≡ some i
        → release_index releases (lib.print v) ≡ some j
        → i < j
        → lib.less_than u v ≡ true
    placed_later releases i j u v chain at at' lt =
        let (r, here, named) = get_elem?-release_index releases (lib.print u) i at in
        let (s, there, named') = get_elem?-release_index releases (lib.print v) j at' in
        let (w, is) = Chain-IsVersionOf lib none releases i r chain here in
        let (x, is') = Chain-IsVersionOf lib none releases j s chain there in
        let eu : w ≡ u = print_injective lib laws w u (is.printed ∙ named) in
        let ev : x ≡ v = print_injective lib laws x v (is'.printed ∙ named') in
        ap₂ (λ a b. lib.less_than a b) (sym eu) (sym ev)
        ∙ Chain-sorted lib laws none releases i j r s w x chain lt here there is is'

    -- The release at an index determines the version.
    placed_same :
        (releases : List ClusterRelease) (i : ℕ) (u v : V)
        → release_index releases (lib.print u) ≡ some i
        → release_index releases (lib.print v) ≡ some i
        → u ≡ v
    placed_same releases i u v at at' =
        let (r, here, named) = get_elem?-release_index releases (lib.print u) i at in
        let (s, there, named') = get_elem?-release_index releases (lib.print v) i at' in
        let same : r ≡ s = some_injective r s (sym here ∙ there) in
        print_injective lib laws u v (sym named ∙ ap (λ t. t.kubernetes) same ∙ named')

    -- Where the ladder is admitted the live cluster stands before the target, or at it.
    pub placed_before :
        (releases : List ClusterRelease) (position : LiveReleasePosition V) (j : ℕ)
        → IsPlaced releases position j
        → Chain lib none releases
        → lib.equal position.current position.target ≡ false
        → position.current_index + 1 < length releases
    placed_before releases position j placed chain differ =
        let i = position.current_index in
        let less : lib.less_than position.current position.target ≡ true = ground (
          arith,
          laws.converse position.current position.target,
          laws.equal_iff position.current position.target,
        ) in
        let (s, there, named) =
          get_elem?-release_index releases (lib.print position.target) j placed.at_target in
        let last = lt-of_get_elem? releases j s there in ground arith

    pub placed_at :
        (releases : List ClusterRelease) (position : LiveReleasePosition V) (j : ℕ)
        → IsPlaced releases position j
        → Chain lib none releases
        → lib.equal position.current position.target ≡ true
        → position.current ≡ position.target
    placed_at releases position j placed chain same =
        elim (Bool-cases (ltb position.current_index j)) [
          | inl before ↦
              let less =
                placed_later releases position.current_index j position.current position.target
                  chain placed.at_current placed.at_target (ground arith) in
              cc (laws.equal_less position.current position.target same)
          | inr other ↦
              placed_same releases j position.current position.target
                (placed.at_current ∙ ap some (ground arith)) placed.at_target
        ]
