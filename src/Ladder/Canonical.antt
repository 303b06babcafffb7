-- ===== src/Ladder/Canonical.antt =====
-- cli/update/version.go: `canonicalSemanticVersions`, which keeps one item of each run of equal
-- versions.
pub mod Current
mod Tests
use atum.Base.{
  ℕ, zero, suc, Bool, true, false, ◌&&◌, not, Option, none, some, List, [], ◌∷◌, Text, text, str_eq,
  has_prefix, length, if◌then◌else◌,
}
use atum.Ladder.{Semver}
use atum.Ladder.Validate.{parse_trimmed}

-- What is not semantic: the current version, or that of an item.
pub data VersionError : Type 0 where
  bad_current bad_item : Text → VersionError

pub data Versions (A : Type 0) : Type 0 where
  canonical : List A → Versions A
  invalid : VersionError → Versions A

module _ {A V C : Type 0} (lib : Semver V C) (version_of : A → Text) where
  -- Whether an item is of the version that a run starts with.
  pub in_run : V → Option V → Bool
  in_run version none = false
  in_run version (some candidate) = lib.equal candidate version

  -- The items up to `end`, less the first, and those from `end` on.
  unfoldable pub run_of : V → List A → List A
  unfolding in_run parse_trimmed
  run_of version [] = []
  run_of version (x ∷ xs) =
      let rest = run_of version xs in
      if in_run version (parse_trimmed lib (version_of x)) then x ∷ rest else []

  unfoldable pub after_run : V → List A → List A
  unfolding in_run parse_trimmed
  after_run version [] = []
  after_run version (x ∷ xs) =
      let rest = after_run version xs in
      if in_run version (parse_trimmed lib (version_of x)) then rest else x ∷ xs

  -- Whether both or neither have a `v` in front.
  pub has_same_mark : Text → Text → Bool
  unfolding has_prefix
  has_same_mark s t =
      if has_prefix t (text "v") then has_prefix s (text "v") else not (has_prefix s (text "v"))

  -- The choice of a run; `same` says that its version is the current one.
  unfoldable pub chosen_of : Bool → Text → A → List A → A
  unfolding str_eq has_same_mark
  chosen_of same current chosen [] = chosen
  chosen_of same current chosen (x ∷ xs) =
      let with_mark = chosen_of same current x xs in
      let without = chosen_of same current chosen xs in
      if same && str_eq (version_of x) current
      then x
      else if has_same_mark (version_of x) current
      then with_mark
      else without

  abbrev pub with_choice : A → Versions A → Versions A
  with_choice x (canonical xs) = canonical (x ∷ xs)
  with_choice x (invalid e) = invalid e

  -- The loop over `start`, with fuel for each item.
  unfoldable pub canonical_from : ℕ → V → Text → List A → Versions A
  unfolding parse_trimmed run_of after_run chosen_of
  canonical_from fuel now current [] = canonical []
  canonical_from zero now current (x ∷ xs) = canonical []
  canonical_from (suc fuel) now current (x ∷ xs) = elim (parse_trimmed lib (version_of x)) [
    | none ↦ invalid (bad_item (version_of x))
    | some version ↦
        with_choice (chosen_of (lib.equal version now) current x (x ∷ run_of version xs))
          (canonical_from fuel now current (after_run version xs))
  ]

  unfoldable pub canonical_semantic_versions : Text → List A → Versions A
  unfolding parse_trimmed canonical_from
  canonical_semantic_versions current items = elim (parse_trimmed lib current) [
    | none ↦ invalid (bad_current current)
    | some now ↦ canonical_from (length items) now current items
  ]
