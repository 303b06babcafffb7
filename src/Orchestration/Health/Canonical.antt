-- ===== src/Orchestration/Health/Canonical.antt =====
-- The version that cli/orchestration reads is the one that it prints.
use atum.Base.{
  false, Option, none, some, [], ◌∷◌, ◌++◌, Text, text, has_prefix, trim_prefix, ◌≡◌, refl, sym, ap,
  ◌∙◌, arith,
}
use atum.Ladder.{Semver, IsSemver, starts_with_mark}
use atum.Orchestration.Health.{canonical_kubernetes_version, stable_print}

trim_prefix-no_mark : (s : Text) → starts_with_mark s ≡ false → trim_prefix s (text "v") ≡ s
unfolding trim_prefix has_prefix
trim_prefix-no_mark [] h = refl
trim_prefix-no_mark (c ∷ s) h = ground (arith, h)

trim_prefix-mark : (s : Text) → trim_prefix (text "v" ++ s) (text "v") ≡ s
unfolding trim_prefix has_prefix
trim_prefix-mark s = refl

module _ {V C : Type 0} (lib : Semver V C) (laws : IsSemver lib) where
  canonical_at :
      (s : Text) (v : V)
      → lib.new_version (trim_prefix s (text "v")) ≡ some v
      → canonical_kubernetes_version lib s ≡ stable_print lib v
  unfolding canonical_kubernetes_version
  canonical_at s v h = ap (λ o. elim o [ none ↦ none | some v ↦ stable_print lib v ]) h

  print-stable_print : (v : V) (s : Text) → stable_print lib v ≡ some s → lib.print v ≡ s
  unfolding stable_print
  print-stable_print v s h = ground (arith, h)

  read_back :
      (s : Text) (v : V)
      → stable_print lib v ≡ some s
      → (canonical_kubernetes_version lib s ≡ some s)
        × (canonical_kubernetes_version lib (text "v" ++ s) ≡ some s)
  read_back s v h =
      let printed = print-stable_print v s h in
      let parsed : lib.new_version s ≡ some v =
        ap lib.new_version (sym printed) ∙ laws.parse_print v in
      let plain = ap (λ t. starts_with_mark t) (sym printed) ∙ laws.no_mark v in
      (
        canonical_at s v (ap lib.new_version (trim_prefix-no_mark s plain) ∙ parsed) ∙ h,
        canonical_at (text "v" ++ s) v (ap lib.new_version (trim_prefix-mark s) ∙ parsed) ∙ h,
      )

  -- Printing a version and reading it again changes nothing: the version that is read from any text is
  -- read from what was printed as well, with the `v` that the server puts before it or without.
  pub canonical_kubernetes_version_round_trip :
      (raw s : Text)
      → canonical_kubernetes_version lib raw ≡ some s
      → (canonical_kubernetes_version lib s ≡ some s)
        × (canonical_kubernetes_version lib (text "v" ++ s) ≡ some s)
  unfolding canonical_kubernetes_version
  canonical_kubernetes_version_round_trip raw s h =
      split (lib.new_version (trim_prefix raw (text "v"))) h
    where
      split :
          (o : Option V)
          → (elim o [ none ↦ none | some v ↦ stable_print lib v ]) ≡ some s
          → (canonical_kubernetes_version lib s ≡ some s)
            × (canonical_kubernetes_version lib (text "v" ++ s) ≡ some s)
      split none k = cc
      split (some v) k = read_back s v k
