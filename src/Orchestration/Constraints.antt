-- ===== src/Orchestration/Constraints.antt =====
-- cli/orchestration/cluster.go: the platform's constraints on the version of Kubernetes.
use atum.Base.{
  Bool, true, false, ◌||◌, Option, none, some, List, [], ◌∷◌, Text, str_eq, elem, if◌then◌else◌,
  ◌≢◌, arith,
}
use atum.Ladder.{Semver}
use atum.Orchestration.{
  CompatibilityConstraint, Result, ok, panic, ◌>>=◌, ◌>>◌, refuse, or_error, incomplete_constraint,
  bad_constraint, repeated_constraint,
}

-- `namedConstraint`
pub record NamedConstraint (C : Type 0) : Type 0 where
  pub id : Text
  pub constraint : C

module _ {V C : Type 0} (lib : Semver V C) where
  -- The loop of `parsePlatformConstraints`, with the ids that it has seen.
  pub parse_constraints :
      List Text → List CompatibilityConstraint → Result (List (NamedConstraint C))
  unfolding str_eq elem
  parse_constraints seen [] = ok []
  parse_constraints seen (e ∷ es) = do
    refuse (str_eq e.id [] || str_eq e.constraint []) incomplete_constraint
    refuse (elem e.id seen) (repeated_constraint e.id)
    c ← or_error (bad_constraint e.id) (lib.new_constraint e.constraint)
    rest ← parse_constraints (e.id ∷ seen) es
    ok (record { id = e.id; constraint = c } ∷ rest)

  -- `parsePlatformConstraints`
  unfoldable pub parse_platform_constraints :
      List CompatibilityConstraint → Result (List (NamedConstraint C))
  unfolding parse_constraints
  parse_platform_constraints = parse_constraints []

  -- The inner loop of `firstUnsupportedConstraint`.
  pub unsupported_by : V → List (NamedConstraint C) → Option (NamedConstraint C)
  unsupported_by v [] = none
  unsupported_by v (c ∷ cs) =
      let rest = unsupported_by v cs in if lib.check c.constraint v then rest else some c

  -- `firstUnsupportedConstraint`; `none` for the empty string, since an id is not empty
  unfoldable pub first_unsupported_constraint :
      List (NamedConstraint C) → List V → Option (NamedConstraint C)
  unfolding unsupported_by
  first_unsupported_constraint cs [] = none
  first_unsupported_constraint cs (v ∷ vs) =
      let rest = first_unsupported_constraint cs vs in
      elim (unsupported_by v cs) [ none ↦ rest | some c ↦ some c ]

  -- Whether every constraint supports both versions.
  unfoldable pub is_compatible : List (NamedConstraint C) → V → V → Bool
  unfolding first_unsupported_constraint
  is_compatible cs current first = elim (first_unsupported_constraint cs (current ∷ first ∷ [])) [
    | none ↦ true
    | some _ ↦ false
  ]

  parse_constraints-ne-panic :
      (seen : List Text) (es : List CompatibilityConstraint) → parse_constraints seen es ≢ panic
  unfolding parse_constraints
  parse_constraints-ne-panic seen [] = λ h. cc h
  parse_constraints-ne-panic seen (e ∷ es) =
      ground (arith, parse_constraints-ne-panic (e.id ∷ seen) es)

  pub parse_platform_constraints-ne-panic :
      (es : List CompatibilityConstraint) → parse_platform_constraints es ≢ panic
  unfolding parse_platform_constraints
  parse_platform_constraints-ne-panic es = parse_constraints-ne-panic [] es
