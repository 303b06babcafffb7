-- ===== src/Ladder/Build.antt =====
-- cli/update/service.go: how the update engine extends the ladder to a selected release, and drops the
-- steps that the cluster has completed.
pub mod Extended
pub mod Retired
use atum.Base.{
  ℕ, zero, suc, ◌+◌, ◌-◌, ◌^◌, Bool, true, false, ◌&&◌, ◌||◌, not, Option, none, some, List, [],
  ◌∷◌, ◌++◌, Text, text, str_eq, trim_prefix, length, ◌==◌, ltb, leb, if◌then◌else◌,
}
use atum.Ladder.{ClusterRelease, GitSource, KubernetesChecksums, Semver}

-- `kubernetesCandidate`: the source of Kubespray, and a release of Kubernetes that it supports.
pub record KubernetesCandidate : Type 0 where
  pub source : GitSource
  pub version : Text
  pub checksums : KubernetesChecksums

pub data BuildError : Type 0 where
  bad_terminal bad_selected bad_candidate older_selected other_major : BuildError
  no_step : ℕ → BuildError
  unstable_live bad_committed absent_live : BuildError

pub data Built : Type 0 where
  ladder : List ClusterRelease → Built
  refused : BuildError → Built

abbrev pub release_of : KubernetesCandidate → ClusterRelease
release_of c = record { kubernetes = c.version; kubespray = c.source; checksums = c.checksums }

-- `current[len(current)-1]`, given the first release
abbrev pub last_of : ClusterRelease → List ClusterRelease → ClusterRelease
last_of r [] = r
last_of r (s ∷ rs) = last_of s rs

-- `result[len(result)-1] = …`
abbrev pub with_last : ClusterRelease → List ClusterRelease → ClusterRelease → List ClusterRelease
with_last r [] new = new ∷ []
with_last r (s ∷ rs) new = r ∷ with_last s rs new

module _ {V C : Type 0} (lib : Semver V C) where
  -- Whether `byCoordinate` holds the candidate at these numbers, if it is the first such.
  pub at_coordinate : ℕ → ℕ → V → Bool
  at_coordinate major minor v = lib.major v == major && lib.minor v == minor

  -- The map `byCoordinate`, which keeps the first candidate of each minor version; `none` for a version
  -- that cannot be parsed.
  unfoldable pub parse_candidates :
      List KubernetesCandidate → Option (List (V × KubernetesCandidate))
  parse_candidates [] = some []
  parse_candidates (c ∷ cs) =
      let rest = parse_candidates cs in
      elim (lib.new_version c.version) [
        | none ↦ none
        | some v ↦ elim rest [ none ↦ none | some ps ↦ some ((v, c) ∷ ps) ]
      ]

  unfoldable pub by_coordinate : ℕ → ℕ → List (V × KubernetesCandidate) → Option KubernetesCandidate
  unfolding at_coordinate
  by_coordinate major minor [] = none
  by_coordinate major minor ((v, c) ∷ ps) =
      let rest = by_coordinate major minor ps in
      if at_coordinate major minor v then some c else rest

  -- The first minor number from `minor` on that no candidate has; there are no more numbers to try than
  -- candidates.
  unfoldable pub missing : ℕ → ℕ → ℕ → List (V × KubernetesCandidate) → ℕ
  unfolding by_coordinate
  missing major zero minor ps = minor
  missing major (suc left) minor ps = elim (by_coordinate major minor ps) [
    | none ↦ minor
    | some c ↦ missing major left (minor + 1) ps
  ]

  -- The loop over the minor numbers, from the next on for as many as are left. After the last number of 64
  -- bits it goes on from 0, until it meets one that no candidate has.
  unfoldable pub extend : ℕ → ℕ → ℕ → List (V × KubernetesCandidate) → List ClusterRelease → Built
  unfolding by_coordinate missing
  extend major minor zero ps result =
      if minor + 1 == 2 ^ 64
      then refused (no_step (missing major (length ps) 0 ps))
      else ladder result
  extend major minor (suc left) ps result = elim (by_coordinate major (minor + 1) ps) [
    | none ↦ refused (no_step (minor + 1))
    | some c ↦ extend major (minor + 1) left ps (result ++ release_of c ∷ [])
  ]

  unfoldable pub extend_parsed :
      ClusterRelease → List ClusterRelease → List KubernetesCandidate → V → V → Built
  unfolding extend parse_candidates
  extend_parsed r rs candidates terminal selected = elim (parse_candidates candidates) [
    | none ↦ refused bad_candidate
    | some ps ↦
        extend (lib.major terminal) (lib.minor terminal) (lib.minor selected - lib.minor terminal)
          ps (r ∷ rs)
  ]

  -- The part of `buildReleaseLadder` behind the parsing of the last and the selected version.
  unfoldable pub build_from :
      ClusterRelease
      → List ClusterRelease
      → List KubernetesCandidate
      → KubernetesCandidate
      → V
      → V
      → Built
  unfolding extend_parsed
  build_from r rs candidates selected terminal candidate =
      if lib.less_than candidate terminal
      then refused older_selected
      else if lib.equal candidate terminal
      then ladder (r ∷ rs)
      else if lib.major candidate == lib.major terminal && lib.minor candidate == lib.minor terminal
      then ladder (with_last r rs (release_of selected))
      else if not (lib.major candidate == lib.major terminal)
      then refused other_major
      else extend_parsed r rs candidates terminal candidate

  unfoldable pub build_parsed :
      ClusterRelease
      → List ClusterRelease
      → List KubernetesCandidate
      → KubernetesCandidate
      → Option V
      → Option V
      → Built
  unfolding build_from
  build_parsed r rs candidates selected none candidate = refused bad_terminal
  build_parsed r rs candidates selected (some terminal) none = refused bad_selected
  build_parsed r rs candidates selected (some terminal) (some candidate) =
      build_from r rs candidates selected terminal candidate

  -- `buildReleaseLadder`
  unfoldable pub build_release_ladder :
      List ClusterRelease → List KubernetesCandidate → KubernetesCandidate → Built
  unfolding build_parsed
  build_release_ladder [] candidates selected = ladder (release_of selected ∷ [])
  build_release_ladder (r ∷ rs) candidates selected =
      build_parsed r rs candidates selected (lib.new_version (last_of r rs).kubernetes)
        (lib.new_version selected.version)

  -- The loop of `retireCompletedReleaseSteps`, from the first release that equals the live version on.
  unfoldable pub retire_from : V → List ClusterRelease → Built
  retire_from live [] = refused absent_live
  retire_from live (r ∷ rs) =
      let rest = retire_from live rs in
      elim (lib.new_version r.kubernetes) [
        | none ↦ refused bad_committed
        | some v ↦ if lib.equal live v then ladder (r ∷ rs) else rest
      ]

  unfoldable pub retire_live : List ClusterRelease → Option V → Built
  unfolding retire_from str_eq
  retire_live releases none = refused unstable_live
  retire_live releases (some live) =
      if str_eq (lib.prerelease live) [] && str_eq (lib.metadata live) []
      then retire_from live releases
      else refused unstable_live

  -- `retireCompletedReleaseSteps`
  unfoldable pub retire_completed_release_steps : List ClusterRelease → Text → Built
  unfolding retire_live trim_prefix
  retire_completed_release_steps [] live = ladder []
  retire_completed_release_steps (r ∷ []) live = ladder (r ∷ [])
  retire_completed_release_steps (r ∷ (s ∷ rs)) live =
      retire_live (r ∷ s ∷ rs) (lib.new_version (trim_prefix live (text "v")))
