-- ===== src/Orchestration/Position.antt =====
-- cli/orchestration/upgrade.go: where the live cluster stands on the ladder.
pub mod Placed
use atum.Base.{
  ℕ, zero, suc, ◌+◌, ◌<◌, Bool, true, false, ◌&&◌, ◌||◌, Option, none, some, List, [], ◌∷◌, Text,
  text, str_eq, get_elem?, ◌==◌, ltb, if◌then◌else◌,
}
use atum.Ladder.{ClusterRelease, Semver}
use atum.Orchestration.{
  Project, Result, ok, err, Error, ◌>>=◌, ◌>>◌, refuse, or_error, unparsable_live,
  unparsable_target, newer_than_target, absent_live, absent_target, not_earlier,
}

-- `releaseIndex`; `none` for -1
unfoldable pub release_index : List ClusterRelease → Text → Option ℕ
unfolding str_eq
release_index [] version = none
release_index (r ∷ rs) version =
    let rest = release_index rs version in
    if str_eq r.kubernetes version
    then some 0
    else elim rest [ none ↦ none | some i ↦ some (suc i) ]

-- `releaseForKubernetes`
unfoldable pub release_for_kubernetes : List ClusterRelease → Text → Option ClusterRelease
unfolding release_index
release_for_kubernetes releases version = elim (release_index releases version) [
  | none ↦ none
  | some i ↦ get_elem? releases i
]

-- `liveReleasePosition`, the type
pub record LiveReleasePosition (V : Type 0) : Type 0 where
  pub current : V
  pub target : V
  pub current_index : ℕ

module _ {V C : Type 0} (lib : Semver V C) where
  -- The tests on the two indices.
  unfoldable pub positioned : List ClusterRelease → V → V → Result (LiveReleasePosition V)
  unfolding release_index
  positioned releases current target = do
    refuse (lib.greater_than current target) newer_than_target
    i ← or_error (absent_live (lib.print current)) (release_index releases (lib.print current))
    j ← or_error (absent_target (lib.print target)) (release_index releases (lib.print target))
    refuse (ltb j i || lib.less_than current target && i == j) not_earlier
    ok (record { current = current; target = target; current_index = i })

  -- `liveReleasePosition`, the method, given the version of the state
  unfoldable pub live_release_position :
      Project → Text → ClusterRelease → Result (LiveReleasePosition V)
  unfolding positioned
  live_release_position project live target = do
    current ← or_error (unparsable_live live) (lib.new_version live)
    t ← or_error (unparsable_target target.kubernetes) (lib.new_version target.kubernetes)
    positioned project.releases current t
