-- ===== src/Ladder/Tests.antt =====
-- A small library of versions, a ladder, and runs of the checks on it.
use atum.Base.{
  ℕ, ◌&&◌, Option, none, some, List, [], ◌∷◌, ◌++◌, Text, text, replicate, ◌==◌, ltb, leb,
  if◌then◌else◌, trim_prefix, ◌≡◌, ◌≢◌, refl, arith,
}
use atum.Ladder.{ClusterRelease, Semver, IsSemver}
use atum.Ladder.Validate.{validate_cluster_releases, must_advance, not_aligned}
use atum.Ladder.Build.{
  KubernetesCandidate, ladder, refused, no_step, build_release_ladder,
  retire_completed_release_steps,
}
use atum.Ladder.Build.Extended.{build_release_ladder-Chain}
use atum.Ladder.Build.Retired.{Keeps, retire_completed_release_steps-Keeps}
use atum.Ladder.Validate.Admitted.{Chain, validate_cluster_releases-Chain}

-- Versions 1.n, where n is the code of one character.
abbrev pub test_print : ℕ → Text
test_print n = b'1' ∷ b'.' ∷ n ∷ []

abbrev pub test_parse : Text → Option ℕ
test_parse (a ∷ (b ∷ (c ∷ []))) = if a == b'1' && b == b'.' then some c else none
test_parse _ = none

-- A constraint is the least version that it allows.
abbrev pub test_semver : Semver ℕ ℕ
test_semver = record {
  new_version = test_parse;
  print = test_print;
  less_than = ltb;
  greater_than = λ u v. ltb v u;
  equal = ◌==◌;
  major = λ _. 1;
  minor = λ v. if ltb v 1000 then v else 1000;
  prerelease = λ _. [];
  metadata = λ _. [];
  new_constraint = test_parse;
  check = λ c v. leb c v;
  print_constraint = test_print;
}

pub test_semver-IsSemver : IsSemver test_semver
test_semver-IsSemver = record {
  parse_print = λ v. refl;
  irreflexive = λ v. ground arith;
  transitive = λ u v w h k. ground (arith, h, k);
  converse = λ u v. refl;
  equal_iff = λ u v h k. ground (arith, h, k);
  equal_less = λ u v h. ground (arith, h);
  equal_greater = λ u v h. ground (arith, h);
  by_precedence = λ u v e h. ground (arith, h);
  by_minor = λ u v h k. ground (arith, h);
  minor_bound = λ v. ground arith;
  no_mark = λ v. refl;
}

abbrev pub digest_of : ℕ → Text
digest_of c = text "sha256:" ++ replicate 64 c

abbrev pub test_release : ℕ → ℕ → ClusterRelease
test_release kubernetes kubespray = record {
  kubernetes = test_print kubernetes;
  kubespray = record {
    url = text "https://git.test/kubespray";
    version = b'v' ∷ test_print kubespray;
    ref = [];
    branch = [];
    commit = replicate 40 b'a';
    patches = none;
    kube_version = [];
    assets = none;
  };
  checksums = record {
    kubelet = digest_of b'a';
    kubeadm = digest_of b'b';
    kubectl = digest_of b'c';
  };
}

-- 1.0, 1.1 and 1.2, with Kubespray 1.5, 1.6 and 1.7
abbrev pub test_releases : List ClusterRelease
test_releases = test_release b'0' b'5' ∷ test_release b'1' b'6' ∷ test_release b'2' b'7' ∷ []

pub test_valid : validate_cluster_releases test_semver test_releases ≡ []
unfolding validate_cluster_releases
test_valid = refl

-- A ladder that skips a version.
test_skips :
    validate_cluster_releases test_semver (test_release b'0' b'5' ∷ test_release b'2' b'7' ∷ [])
    ≡ must_advance 1 ∷ []
unfolding validate_cluster_releases
test_skips = refl

test_unaligned :
    validate_cluster_releases test_semver (test_release b'0' b'5' ∷ test_release b'1' b'7' ∷ [])
    ≡ not_aligned 1 ∷ []
unfolding validate_cluster_releases
test_unaligned = refl

validate_cluster_releases-Chain_example :
    (◌≢◌ {A = List ClusterRelease} test_releases []) × Chain test_semver none test_releases
validate_cluster_releases-Chain_example =
    validate_cluster_releases-Chain test_semver test_semver-IsSemver test_releases test_valid

abbrev candidate : ℕ → ℕ → KubernetesCandidate
candidate kubernetes kubespray = record {
  source = (test_release kubernetes kubespray).kubespray;
  version = test_print kubernetes;
  checksums = (test_release kubernetes kubespray).checksums;
}

abbrev extended_releases : List ClusterRelease
extended_releases = test_releases ++ test_release b'3' b'8' ∷ test_release b'4' b'9' ∷ []

extended :
    build_release_ladder test_semver test_releases
      (candidate b'4' b'9' ∷ candidate b'3' b'8' ∷ [])
      (candidate b'4' b'9')
    ≡ ladder extended_releases
unfolding build_release_ladder
extended = refl

-- The step in between is not there.
no_way :
    build_release_ladder test_semver test_releases (candidate b'4' b'9' ∷ []) (candidate b'4' b'9')
    ≡ refused (no_step b'3')
unfolding build_release_ladder
no_way = refl

test-Chain : Chain test_semver none test_releases
test-Chain =
    (validate_cluster_releases-Chain test_semver test_semver-IsSemver test_releases test_valid).1

build_release_ladder-Chain_example : Chain test_semver none extended_releases
build_release_ladder-Chain_example =
    build_release_ladder-Chain test_semver test_semver-IsSemver test_releases extended_releases
      (candidate b'4' b'9' ∷ candidate b'3' b'8' ∷ []) (candidate b'4' b'9') test-Chain
      (
        (b'4', record { printed = refl; stable = refl }),
        (
          (b'4', record { printed = refl; stable = refl }),
          ((b'3', record { printed = refl; stable = refl }), tt),
        ),
      )
      extended

retired :
    retire_completed_release_steps test_semver test_releases (text "v1.1")
    ≡ ladder (test_release b'1' b'6' ∷ test_release b'2' b'7' ∷ [])
unfolding retire_completed_release_steps
retired = refl

retire_completed_release_steps-Keeps_example :
    (v : ℕ) × (test_parse (trim_prefix (text "v1.1") (text "v")) ≡ some v)
    × Keeps test_semver v test_releases
        (ladder (test_release b'1' b'6' ∷ test_release b'2' b'7' ∷ []))
retire_completed_release_steps-Keeps_example =
    retire_completed_release_steps-Keeps test_semver (test_release b'0' b'5')
      (test_release b'1' b'6') (test_release b'2' b'7' ∷ [])
      (test_release b'1' b'6' ∷ test_release b'2' b'7' ∷ []) (text "v1.1") test-Chain retired
