-- ===== src/Ladder/Build/Extended.antt =====
-- What `buildReleaseLadder` makes of a ladder that goes up step by step goes up step by step.
use atum.Base.{
  ℕ, zero, suc, ◌+◌, ◌-◌, ◌^◌, true, ◌&&◌, not, Option, none, some, List, [], ◌∷◌, ◌++◌, ◌==◌, ◌≡◌,
  refl, sym, ap, subst, ◌∙◌, inl, inr, Bool-cases, if_cases, some_injective, arith,
}
use atum.Ladder.{ClusterRelease, Semver, IsSemver}
use atum.Ladder.Validate.Admitted.{IsVersionOf, IsNext, Follows, Chain}
use atum.Ladder.Validate.Sorted.{new_version-IsVersionOf}
use atum.Ladder.Build.{
  KubernetesCandidate, Built, ladder, refused, release_of, last_of, with_last, at_coordinate,
  parse_candidates, by_coordinate, extend, extend_parsed, build_from, build_parsed,
  build_release_ladder,
}

module _ {V C : Type 0} (lib : Semver V C) where
  -- The candidates name stable versions as they are printed.
  abbrev pub AllNamed : List KubernetesCandidate → Type 0
  AllNamed [] = Unit {0}
  AllNamed (c ∷ cs) = ((v : V) × IsVersionOf lib (release_of c) v) × AllNamed cs

  -- A chain that ends at a version.
  abbrev ChainTo : Option V → List ClusterRelease → V → Type 0
  ChainTo previous [] w = previous ≡ some w
  ChainTo previous (r ∷ rs) w =
      (v : V) × IsVersionOf lib r v × Follows lib previous v × ChainTo (some v) rs w

  Chain-ChainTo :
      (p : Option V) (r : ClusterRelease) (rs : List ClusterRelease)
      → Chain lib p (r ∷ rs)
      → (w : V) × ChainTo p (r ∷ rs) w
  Chain-ChainTo p r [] (v, is, follows, c) = (v, (v, is, follows, refl))
  Chain-ChainTo p r (s ∷ rs) (v, is, follows, c) =
      let (w, to) = Chain-ChainTo (some v) s rs c in (w, (v, is, follows, to))

  ChainTo-Chain :
      (p : Option V) (rs : List ClusterRelease) (w : V) → ChainTo p rs w → Chain lib p rs
  ChainTo-Chain p [] w to = tt
  ChainTo-Chain p (r ∷ rs) w (v, is, follows, to) = (v, is, follows, ChainTo-Chain (some v) rs w to)

  ChainTo-last_of :
      (p : Option V) (r : ClusterRelease) (rs : List ClusterRelease) (w : V)
      → ChainTo p (r ∷ rs) w
      → IsVersionOf lib (last_of r rs) w
  ChainTo-last_of p r [] w (v, is, follows, to) =
      subst (IsVersionOf lib r) (some_injective v w to) is
  ChainTo-last_of p r (s ∷ rs) w (v, is, follows, to) = ChainTo-last_of (some v) s rs w to

  ChainTo-snoc :
      (p : Option V) (rs : List ClusterRelease) (r : ClusterRelease) (w v : V)
      → ChainTo p rs w
      → IsVersionOf lib r v
      → IsNext lib w v
      → ChainTo p (rs ++ r ∷ []) v
  ChainTo-snoc p [] r w v to is next = (v, is, subst (λ q. Follows lib q v) (sym to) next, refl)
  ChainTo-snoc p (s ∷ rs) r w v (u, named, follows, to) is next =
      (u, named, follows, ChainTo-snoc (some u) rs r w v to is next)

  module _ (laws : IsSemver lib) where
    -- A later patch may take the place of the last version.
    Follows-patch :
        (p : Option V) (w v : V)
        → lib.less_than w v ≡ true
        → lib.major v ≡ lib.major w
        → lib.minor v ≡ lib.minor w
        → Follows lib p w
        → Follows lib p v
    Follows-patch none w v less major minor follows = tt
    Follows-patch (some u) w v less major minor follows = record {
      grows = laws.transitive u w v follows.grows less;
      same_major = major ∙ follows.same_major;
      one_minor = ground (arith, minor, follows.one_minor);
    }

    Chain-with_last :
        (p : Option V) (r new : ClusterRelease) (rs : List ClusterRelease) (w v : V)
        → ChainTo p (r ∷ rs) w
        → IsVersionOf lib new v
        → lib.less_than w v ≡ true
        → lib.major v ≡ lib.major w
        → lib.minor v ≡ lib.minor w
        → Chain lib p (with_last r rs new)
    Chain-with_last p r new [] w v (u, named, follows, to) is less major minor = (
      v,
      is,
      Follows-patch p w v less major minor (subst (Follows lib p) (some_injective u w to) follows),
      tt,
    )
    Chain-with_last p r new (s ∷ rs) w v (u, named, follows, to) is less major minor =
        (u, named, follows, Chain-with_last (some u) s new rs w v to is less major minor)

    -- A candidate with the next minor number is one step later.
    IsNext-minor :
        (w v : V) → lib.major v ≡ lib.major w → lib.minor v ≡ lib.minor w + 1 → IsNext lib w v
    IsNext-minor w v major minor = record {
      grows = laws.by_precedence w v (sym major) (omega arith);
      same_major = major;
      one_minor = inr minor;
    }

    -- The parsed candidates name the versions that stand beside them.
    abbrev Parsed : List (V × KubernetesCandidate) → Type 0
    Parsed [] = Unit {0}
    Parsed ((v, c) ∷ ps) = IsVersionOf lib (release_of c) v × Parsed ps

    parse_candidates-Parsed :
        (cs : List KubernetesCandidate) (ps : List (V × KubernetesCandidate))
        → AllNamed cs
        → parse_candidates lib cs ≡ some ps
        → Parsed ps
    unfolding parse_candidates
    parse_candidates-Parsed [] ps named h = subst Parsed (some_injective [] ps h) tt
    parse_candidates-Parsed (c ∷ cs) ps ((v, is), named) h =
        both (lib.new_version c.version) (parse_candidates lib cs)
          (λ u e.
            subst (IsVersionOf lib (release_of c))
              (sym (new_version-IsVersionOf lib laws (release_of c) u v is e)) is)
          (λ qs e. parse_candidates-Parsed cs qs named e) h
      where
        both :
            (a : Option V) (b : Option (List (V × KubernetesCandidate)))
            → ((u : V) → a ≡ some u → IsVersionOf lib (release_of c) u)
            → ((qs : List (V × KubernetesCandidate)) → b ≡ some qs → Parsed qs)
            → (elim a [
              | none ↦ none
              | some u ↦ elim b [ none ↦ none | some qs ↦ some ((u, c) ∷ qs) ]
            ])
              ≡ some ps
            → Parsed ps
        both none b ka kb e = cc
        both (some u) none ka kb e = cc
        both (some u) (some qs) ka kb e =
            subst Parsed (some_injective ((u, c) ∷ qs) ps e) (ka u refl, kb qs refl)

    by_coordinate-IsVersionOf :
        (major minor : ℕ) (ps : List (V × KubernetesCandidate)) (c : KubernetesCandidate)
        → Parsed ps
        → by_coordinate lib major minor ps ≡ some c
        → (v : V) × IsVersionOf lib (release_of c) v × (lib.major v ≡ major) × (lib.minor v ≡ minor)
    unfolding by_coordinate
    by_coordinate-IsVersionOf major minor [] c parsed h = cc
    by_coordinate-IsVersionOf major minor ((v, d) ∷ ps) c parsed h =
        elim (Bool-cases (at_coordinate lib major minor v)) [
          | inl here ↦ (
            v,
            subst (λ x. IsVersionOf lib (release_of x) v)
                (some_injective d c (ground (arith, h, here))) parsed.0,
            ground (arith, here),
            ground (arith, here),
          )
          | inr on ↦ by_coordinate-IsVersionOf major minor ps c parsed.1 (ground (arith, h, on))
        ]

    abbrev pub Builds : Built → Type 0
    Builds (ladder rs) = Chain lib none rs
    Builds (refused e) = Unit {0}

    extend-Builds :
        (major minor left : ℕ) (ps : List (V × KubernetesCandidate)) (rs : List ClusterRelease)
        (w : V)
        → Parsed ps
        → ChainTo none rs w
        → lib.major w ≡ major
        → lib.minor w ≡ minor
        → Builds (extend lib major minor left ps rs)
    unfolding extend
    extend-Builds major minor zero ps rs w parsed to em en =
        if_cases Builds (minor + 1 == 2 ^ 64) (λ _. tt) (λ _. ChainTo-Chain none rs w to)
    extend-Builds major minor (suc left) ps rs w parsed to em en =
        step (by_coordinate lib major (minor + 1) ps) refl (λ c v is ev en'.
          extend-Builds major (minor + 1) left ps (rs ++ release_of c ∷ []) v parsed
            (ChainTo-snoc none rs (release_of c) w v to is
              (IsNext-minor w v (ev ∙ sym em) (en' ∙ ap (λ n. n + 1) (sym en))))
            ev en')
      where
        step :
            (o : Option KubernetesCandidate)
            → by_coordinate lib major (minor + 1) ps ≡ o
            → ((c : KubernetesCandidate) (v : V)
                → IsVersionOf lib (release_of c) v
                → lib.major v ≡ major
                → lib.minor v ≡ minor + 1
                → Builds (extend lib major (minor + 1) left ps (rs ++ release_of c ∷ [])))
            → Builds (extend lib major minor (suc left) ps rs)
        step none e k = rw (e, extend) tt
        step (some c) e k =
            let (v, is, ev, en') = by_coordinate-IsVersionOf major (minor + 1) ps c parsed e in
            rw (e, extend) (k c v is ev en')

    extend_parsed-Builds :
        (r : ClusterRelease) (rs : List ClusterRelease) (cs : List KubernetesCandidate) (w v : V)
        → AllNamed cs
        → ChainTo none (r ∷ rs) w
        → Builds (extend_parsed lib r rs cs w v)
    unfolding extend_parsed
    extend_parsed-Builds r rs cs w v named to = step (parse_candidates lib cs) refl
      where
        step :
            (o : Option (List (V × KubernetesCandidate)))
            → parse_candidates lib cs ≡ o
            → Builds (extend_parsed lib r rs cs w v)
        step none e = rw (e, extend_parsed) tt
        step (some ps) e =
            rw (e, extend_parsed)
              (extend-Builds (lib.major w) (lib.minor w) (lib.minor v - lib.minor w) ps (r ∷ rs) w
                (parse_candidates-Parsed cs ps named e) to refl refl)

    build_from-Builds :
        (r : ClusterRelease) (rs : List ClusterRelease) (cs : List KubernetesCandidate)
        (selected : KubernetesCandidate) (w v : V)
        → AllNamed cs
        → IsVersionOf lib (release_of selected) v
        → ChainTo none (r ∷ rs) w
        → Builds (build_from lib r rs cs selected w v)
    unfolding build_from
    build_from-Builds r rs cs selected w v named is to =
        if_cases Builds (lib.less_than v w) (λ older. tt)
          (λ newer.
            if_cases Builds (lib.equal v w) (λ same. ChainTo-Chain none (r ∷ rs) w to)
              (λ differ.
                if_cases Builds (lib.major v == lib.major w && lib.minor v == lib.minor w)
                  (λ patch.
                    Chain-with_last none r (release_of selected) rs w v to is
                      (ground (arith, newer, differ, laws.equal_iff v w)) (ground (arith, patch))
                      (ground (arith, patch)))
                  (λ minor.
                    if_cases Builds (not (lib.major v == lib.major w)) (λ major. tt)
                      (λ major. extend_parsed-Builds r rs cs w v named to))))

    -- If the Kubernetes versions of a ladder go up by a patch or a minor version at a time, those of the
    -- ladder that `buildReleaseLadder` makes of it do so too: where it was empty, where its last release is
    -- replaced by a later patch, where steps are appended up to the selected release, and where nothing is
    -- to do. The candidates and the selected release name stable versions as they are printed. Nothing is
    -- said of the versions of Kubespray.
    pub build_release_ladder-Chain :
        (rs built : List ClusterRelease) (cs : List KubernetesCandidate)
        (selected : KubernetesCandidate)
        → Chain lib none rs
        → AllNamed (selected ∷ cs)
        → build_release_ladder lib rs cs selected ≡ ladder built
        → Chain lib none built
    unfolding build_release_ladder build_parsed
    build_release_ladder-Chain [] built cs selected chain ((v, is), named) h =
        subst Builds h (v, is, tt, tt)
    build_release_ladder-Chain (r ∷ rs) built cs selected chain ((v, is), named) h =
        step (Chain-ChainTo none r rs chain) (lib.new_version (last_of r rs).kubernetes)
          (lib.new_version selected.version) refl refl h
      where
        step :
            ((w : V) × ChainTo none (r ∷ rs) w)
            → (a b : Option V) → lib.new_version (last_of r rs).kubernetes ≡ a
            → lib.new_version selected.version ≡ b
            → build_parsed lib r rs cs selected a b ≡ ladder built
            → Chain lib none built
        step (w, to) none b e d k = cc
        step (w, to) (some x) none e d k = cc
        step (w, to) (some x) (some y) e d k = subst Builds k (
            build_from-Builds r rs cs selected x y named
              (subst (IsVersionOf lib (release_of selected))
                (sym (new_version-IsVersionOf lib laws (release_of selected) y v is d)) is)
              (subst (ChainTo none (r ∷ rs))
                (sym (
                  new_version-IsVersionOf lib laws (last_of r rs) x w
                    (ChainTo-last_of none r rs w to) e))
                to))
