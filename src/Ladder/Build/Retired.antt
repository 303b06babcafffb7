-- ===== src/Ladder/Build/Retired.antt =====
-- `retireCompletedReleaseSteps` keeps the ladder admitted and starts it at the live version.
use atum.Base.{
  true, ◌&&◌, Option, none, some, List, [], ◌∷◌, ◌++◌, Text, text, str_eq, trim_prefix, ◌≡◌, refl,
  ap, subst, inl, inr, Bool-cases, if_cases, if◌then◌else◌, arith,
}
use atum.Ladder.{ClusterRelease, Semver}
use atum.Ladder.Validate.Admitted.{Chain}
use atum.Ladder.Build.{
  Built, ladder, refused, bad_committed, retire_from, retire_live, retire_completed_release_steps,
}

module _ {V C : Type 0} (lib : Semver V C) where
  -- A chain may start anywhere.
  Chain-tail : (p : Option V) (rs : List ClusterRelease) → Chain lib p rs → Chain lib none rs
  Chain-tail p [] c = tt
  Chain-tail p (r ∷ rs) (v, is, follows, c) = (v, is, tt, c)

  -- What is kept of the releases: a tail, whose first release names a version that equals the live one.
  abbrev pub Keeps : V → List ClusterRelease → Built → Type 0
  Keeps live rs (refused e) = Unit {0}
  Keeps live rs (ladder []) = ⊥
  Keeps live rs (ladder (s ∷ kept)) =
      Chain lib none (s ∷ kept)
      × ((dropped : List ClusterRelease) × (rs ≡ dropped ++ s ∷ kept))
      × ((v : V) × (lib.new_version s.kubernetes ≡ some v) × (lib.equal live v ≡ true))

  Keeps-cons :
      (live : V) (r : ClusterRelease) (rs : List ClusterRelease) (b : Built)
      → Keeps live rs b
      → Keeps live (r ∷ rs) b
  Keeps-cons live r rs (refused e) h = tt
  Keeps-cons live r rs (ladder []) h = h
  Keeps-cons live r rs (ladder (s ∷ kept)) (c, (dropped, e), at) =
      (c, (r ∷ dropped, ap (λ l. r ∷ l) e), at)

  retire_from-Keeps :
      (live : V) (p : Option V) (rs : List ClusterRelease)
      → Chain lib p rs
      → Keeps live rs (retire_from lib live rs)
  unfolding retire_from
  retire_from-Keeps live p [] c = tt
  retire_from-Keeps live p (r ∷ rs) (v, is, follows, c) =
      step (lib.new_version r.kubernetes) refl (retire_from-Keeps live (some v) rs c)
    where
      step :
          (o : Option V)
          → lib.new_version r.kubernetes ≡ o
          → Keeps live rs (retire_from lib live rs)
          → Keeps live (r ∷ rs) (elim o [
            | none ↦ refused bad_committed
            | some u ↦ if lib.equal live u then ladder (r ∷ rs) else retire_from lib live rs
          ])
      step none e k = tt
      step (some u) e k =
          if_cases (Keeps live (r ∷ rs)) (lib.equal live u)
            (λ same. ((v, is, tt, c), ([], refl), (u, e, same)))
            (λ other. Keeps-cons live r rs (retire_from lib live rs) k)

  -- Where `retireCompletedReleaseSteps` drops steps of an admitted ladder with more than one release,
  -- it keeps a tail of it, which is admitted and starts at a release whose version equals the live one.
  pub retire_completed_release_steps-Keeps :
      (r s : ClusterRelease) (rs kept : List ClusterRelease) (live : Text)
      → Chain lib none (r ∷ s ∷ rs)
      → retire_completed_release_steps lib (r ∷ s ∷ rs) live ≡ ladder kept
      → (v : V) × (lib.new_version (trim_prefix live (text "v")) ≡ some v)
        × Keeps v (r ∷ s ∷ rs) (ladder kept)
  unfolding retire_completed_release_steps retire_live
  retire_completed_release_steps-Keeps r s rs kept live chain h =
      step (lib.new_version (trim_prefix live (text "v"))) refl h
    where
      step :
          (o : Option V)
          → lib.new_version (trim_prefix live (text "v")) ≡ o
          → retire_live lib (r ∷ s ∷ rs) o ≡ ladder kept
          → (v : V) × (lib.new_version (trim_prefix live (text "v")) ≡ some v)
            × Keeps v (r ∷ s ∷ rs) (ladder kept)
      step none e k = cc
      step (some v) e k = (
        v,
        e,
        elim (Bool-cases (str_eq (lib.prerelease v) [] && str_eq (lib.metadata v) [])) [
          | inl stable ↦
              subst (Keeps v (r ∷ s ∷ rs)) (rw stable at k)
                (retire_from-Keeps v none (r ∷ s ∷ rs) chain)
          | inr unstable ↦ absurd (ground (arith, k, unstable))
        ],
      )
