-- ===== src/Ladder.antt =====
-- The release ladder of the orchestrated cluster: the types of cli/config/config.go, and the library of
-- semantic versions, which the program takes from github.com/Masterminds/semver.
pub mod Source
pub mod Validate
pub mod Build
pub mod Canonical
pub mod Tests
use atum.Base.{
  ℕ, ◌+◌, ◌-◌, ◌%◌, ◌^◌, ◌<◌, ◌≤◌, Bool, true, false, ◌&&◌, Option, none, some, List, [], ◌∷◌, Text,
  str_eq, ◌==◌, if◌then◌else◌, ◌≡◌,
}

-- `Asset`
pub record Asset : Type 0 where
  pub id : Text
  pub url : Text
  pub file : Text
  pub source_sha256 : Text
  pub sha256 : Text

-- `GitSource`. A slice is `none` where it is nil, which `reflect.DeepEqual` tells from an empty one.
pub record GitSource : Type 0 where
  pub url : Text
  pub version : Text
  pub ref : Text
  pub branch : Text
  pub commit : Text
  pub patches : Option (List Text)
  pub kube_version : Text
  pub assets : Option (List Asset)

-- `KubernetesChecksums`
pub record KubernetesChecksums : Type 0 where
  pub kubelet : Text
  pub kubeadm : Text
  pub kubectl : Text

-- `ClusterRelease`
pub record ClusterRelease : Type 0 where
  pub kubernetes : Text
  pub kubespray : GitSource
  pub checksums : KubernetesChecksums

-- The elements of a slice.
abbrev pub elements : {A : Type 0} → Option (List A) → List A
elements none = []
elements (some xs) = xs

-- `TargetRelease`: the last release; `none` for the error on an empty ladder.
unfoldable pub target_release : List ClusterRelease → Option ClusterRelease
target_release [] = none
target_release (r ∷ []) = some r
target_release (r ∷ (s ∷ rs)) = target_release (s ∷ rs)

-- What the program calls of the library: `NewVersion`, `String`, `LessThan`, `GreaterThan`, `Equal`,
-- `Major`, `Minor`, `Prerelease`, `Metadata`; `NewConstraint`, `Check` and `String` of constraints.
-- A version is taken without the spelling from which it was parsed.
pub record Semver (V C : Type 0) : Type 0 where
  pub new_version : Text → Option V
  pub print : V → Text
  pub less_than : V → V → Bool
  pub greater_than : V → V → Bool
  pub equal : V → V → Bool
  pub major : V → ℕ
  pub minor : V → ℕ
  pub prerelease : V → Text
  pub metadata : V → Text
  pub new_constraint : Text → Option C
  pub check : C → V → Bool
  pub print_constraint : C → Text

-- Whether a text starts with the `v` that `TrimPrefix` takes off.
abbrev pub starts_with_mark : Text → Bool
starts_with_mark [] = false
starts_with_mark (c ∷ s) = c == b'v'

-- What the library documents of them: printing and parsing are inverse, the order is strict, total
-- up to `Equal`, and goes by the major and the minor number first; numbers are unsigned and have 64
-- bits; a printed version starts with no `v`.
pub record IsSemver {V C : Type 0} (lib : Semver V C) : Type 0 where
  pub parse_print : (v : V) → lib.new_version (lib.print v) ≡ some v
  pub irreflexive : (v : V) → lib.less_than v v ≡ false
  pub transitive :
      (u v w : V) → lib.less_than u v ≡ true → lib.less_than v w ≡ true → lib.less_than u w ≡ true
  pub converse : (u v : V) → lib.greater_than u v ≡ lib.less_than v u
  pub equal_iff :
      (u v : V) → lib.less_than u v ≡ false → lib.less_than v u ≡ false → lib.equal u v ≡ true
  pub equal_less : (u v : V) → lib.equal u v ≡ true → lib.less_than u v ≡ false
  pub equal_greater : (u v : V) → lib.equal u v ≡ true → lib.less_than v u ≡ false
  pub by_minor :
      (u v : V) → lib.less_than u v ≡ true → lib.major u ≡ lib.major v → lib.minor u ≤ lib.minor v
  pub by_precedence :
      (u v : V) → lib.major u ≡ lib.major v → lib.minor u < lib.minor v → lib.less_than u v ≡ true
  pub minor_bound : (v : V) → lib.minor v < 2 ^ 64
  pub no_mark : (v : V) → starts_with_mark (lib.print v) ≡ false
