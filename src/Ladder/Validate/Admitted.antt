-- ===== src/Ladder/Validate/Admitted.antt =====
-- What a ladder is that `validateClusterReleases` has nothing to say of.
use atum.Base.{
  ℕ, suc, ◌+◌, ◌^◌, ◌<◌, ◌≤◌, Bool, true, false, ◌||◌, not, Option, none, some, List, [], ◌∷◌, ◌++◌,
  Text, str_eq, str_eq→eq, ◌==◌, if◌then◌else◌, map, ◌≡◌, ◌≢◌, refl, sym, ◌⊎◌, arith,
}
use atum.Ladder.{ClusterRelease, Semver, IsSemver}
use atum.Ladder.Source.{when, validate_git_source}
use atum.Ladder.Validate.{
  not_canonical, not_stable, changes_repository, of_source, parse_trimmed, is_canonical, is_stable,
  is_advance, minor_delta, out_of_step, later, validate_checksums, validate_step, validate_release,
  validate_from, validate_cluster_releases,
}

append-eq-nil {ℓ} :
    {A : Type ℓ} (xs ys : List A) → xs ++ ys ≡ [] → ◌≡◌ {A = List A} xs [] × ◌≡◌ {A = List A} ys []
append-eq-nil [] ys h = (refl, h)
append-eq-nil (x ∷ xs) ys h = cc

rest {ℓ} : {A : Type ℓ} (xs ys : List A) → xs ++ ys ≡ [] → ◌≡◌ {A = List A} ys []
rest xs ys h = (append-eq-nil xs ys h).1

when-eq-nil {ℓ} : {A : Type ℓ} (b : Bool) (a : A) → ◌≡◌ {A = List A} (when b a) [] → b ≡ false
when-eq-nil true a h = cc
when-eq-nil false a h = refl

not-false : (b : Bool) → not b ≡ false → b ≡ true
not-false true h = refl
not-false false h = cc

-- A step that is not out of step keeps the minor number or raises it by one.
minor_delta_lem :
    (a b : ℕ) → b ≤ a → a < 2 ^ 64 → out_of_step (minor_delta a b) ≡ false → (a ≡ b) ⊎ (a ≡ b + 1)
unfolding out_of_step minor_delta
minor_delta_lem a b le lt h = ground (arith, h)

module _ {V C : Type 0} (lib : Semver V C) where
  -- A stable version, and the release is named as it is printed.
  pub record IsVersionOf (r : ClusterRelease) (v : V) : Type 0 where
    pub printed : lib.print v ≡ r.kubernetes
    pub stable : lib.prerelease v ≡ []

  -- Later by a patch or by one minor version.
  pub record IsNext (u v : V) : Type 0 where
    pub grows : lib.less_than u v ≡ true
    pub same_major : lib.major v ≡ lib.major u
    pub one_minor : (lib.minor v ≡ lib.minor u) ⊎ (lib.minor v ≡ lib.minor u + 1)

  abbrev pub Follows : Option V → V → Type 0
  Follows none v = Unit {0}
  Follows (some u) v = IsNext u v

  -- Every release is one step later than the one before.
  abbrev pub Chain : Option V → List ClusterRelease → Type 0
  Chain previous [] = Unit {0}
  Chain previous (r ∷ rs) = (v : V) × IsVersionOf r v × Follows previous v × Chain (some v) rs

  is_canonical-IsVersionOf :
      (r : ClusterRelease) (o : Option V)
      → is_canonical lib r o ≡ true
      → (v : V) × (o ≡ some v) × IsVersionOf r v
  unfolding is_canonical
  is_canonical-IsVersionOf r none h = cc
  is_canonical-IsVersionOf r (some v) h = (
    v,
    refl,
    record {
      printed = ground (arith, str_eq→eq r.kubernetes (lib.print v));
      stable = ground (arith, str_eq→eq (lib.prerelease v) []);
    },
  )

  module _ (laws : IsSemver lib) where
    is_advance-IsNext : (u v : V) → is_advance lib u v ≡ true → IsNext u v
    unfolding is_advance
    is_advance-IsNext u v h = record { grows = grows; same_major = same; one_minor = one }
      where
        grows : lib.less_than u v ≡ true
        grows = ground (arith, h, laws.converse v u)

        same : lib.major v ≡ lib.major u
        same = ground (arith, h)

        one : (lib.minor v ≡ lib.minor u) ⊎ (lib.minor v ≡ lib.minor u + 1)
        one =
            minor_delta_lem (lib.minor v) (lib.minor u) (laws.by_minor u v grows (sym same))
              (laws.minor_bound v) (ground (arith, h))

    validate_step-Follows :
        (i : ℕ) (p q s : Option V) (v : V) → validate_step lib i p q (some v) s ≡ [] → Follows p v
    unfolding validate_step
    validate_step-Follows i none q s v h = tt
    validate_step-Follows i (some u) q s v h =
        is_advance-IsNext u v (not-false _ (when-eq-nil _ _ (append-eq-nil _ _ h).0))

    validate_release-IsVersionOf :
        (i : ℕ) (url : Text) (p q : Option V) (r : ClusterRelease)
        → validate_release lib i url p q r ≡ []
        → (v : V) × (parse_trimmed lib r.kubernetes ≡ some v) × IsVersionOf r v × Follows p v
    unfolding validate_release
    validate_release-IsVersionOf i url p q r h =
        named
          (is_canonical-IsVersionOf r (parse_trimmed lib r.kubernetes)
            (not-false _ (when-eq-nil _ _ (append-eq-nil _ _ h).0)))
          (rest (validate_checksums i r.checksums) _ (
            rest (when (not (i == 0 || str_eq r.kubespray.url url)) (changes_repository i)) _ (
              rest
                (when (not (is_stable lib (parse_trimmed lib r.kubespray.version))) (not_stable i))
                _
                (rest (map (of_source i) (validate_git_source r.kubespray)) _ (
                  rest
                    (when (not (is_canonical lib r (parse_trimmed lib r.kubernetes)))
                      (not_canonical i))
                    _ h)))))
      where
        named :
            (v : V) × (parse_trimmed lib r.kubernetes ≡ some v) × IsVersionOf r v
            → validate_step lib i p q
                (parse_trimmed lib r.kubernetes)
                (parse_trimmed lib r.kubespray.version)
              ≡ []
            → (v : V) × (parse_trimmed lib r.kubernetes ≡ some v) × IsVersionOf r v × Follows p v
        named (v, e, is) step = (v, e, is, validate_step-Follows i p q _ v (rw e at step))

    validate_from-Chain :
        (i : ℕ) (url : Text) (p q : Option V) (rs : List ClusterRelease)
        → validate_from lib i url p q rs ≡ []
        → Chain p rs
    unfolding validate_from later
    validate_from-Chain i url p q [] h = tt
    validate_from-Chain i url p q (r ∷ rs) h =
        chained (validate_release-IsVersionOf i url p q r (append-eq-nil _ _ h).0) (
          validate_from-Chain (suc i) (if i == 0 then r.kubespray.url else url)
            (later lib (parse_trimmed lib r.kubernetes) p)
            (later lib (parse_trimmed lib r.kubespray.version) q) rs
            (rest (validate_release lib i url p q r) _ h))
      where
        chained :
            (v : V) × (parse_trimmed lib r.kubernetes ≡ some v) × IsVersionOf r v × Follows p v
            → Chain (later lib (parse_trimmed lib r.kubernetes) p) rs
            → Chain p (r ∷ rs)
        chained (v, e, is, follows) c = (v, is, follows, rw e at c)

    -- A ladder of which nothing is reported has releases, and each names a stable version as it is
    -- printed, which is later than the one before, with the same major number and the same minor
    -- number or the next.
    pub validate_cluster_releases-Chain :
        (rs : List ClusterRelease)
        → validate_cluster_releases lib rs ≡ []
        → (◌≢◌ {A = List ClusterRelease} rs []) × Chain none rs
    unfolding validate_cluster_releases
    validate_cluster_releases-Chain [] h = cc
    validate_cluster_releases-Chain (r ∷ rs) h =
        ((λ e. cc e), validate_from-Chain 0 [] none none (r ∷ rs) h)
