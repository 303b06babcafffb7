-- ===== src/Ladder/Validate.antt =====
-- cli/config/config.go: `validateClusterReleases`, which reports what is wrong with a ladder.
pub mod Admitted
pub mod Sorted
use atum.Base.{
  ℕ, zero, suc, ◌+◌, ◌-◌, ◌%◌, ◌^◌, Bool, true, false, ◌&&◌, ◌||◌, not, Option, none, some, List,
  [], ◌∷◌, ◌++◌, Text, text, str_eq, has_prefix, trim_prefix, ◌==◌, ltb, leb, if◌then◌else◌, map,
}
use atum.Update.Version.{valid_hex_sha256}
use atum.Ladder.{ClusterRelease, KubernetesChecksums, Semver}
use atum.Ladder.Source.{SourceProblem, validate_git_source, when}

pub data Problem : Type 0 where
  no_release : Problem
  not_canonical not_stable changes_repository must_advance not_aligned : ℕ → Problem
  bad_checksum : ℕ → Text → Problem
  of_source : ℕ → SourceProblem → Problem

-- `validDigest`
pub valid_digest : Text → Bool
unfolding has_prefix trim_prefix valid_hex_sha256
valid_digest value =
    has_prefix value (text "sha256:") && valid_hex_sha256 (trim_prefix value (text "sha256:"))

-- The three checksums. Go ranges over the map in any order.
pub validate_checksums : ℕ → KubernetesChecksums → List Problem
unfolding valid_digest
validate_checksums i c =
    when (not (valid_digest c.kubeadm)) (bad_checksum i (text "kubeadm"))
    ++ (when (not (valid_digest c.kubectl)) (bad_checksum i (text "kubectl"))
        ++ when (not (valid_digest c.kubelet)) (bad_checksum i (text "kubelet")))

-- `int64(a) - int64(b)` as a bit pattern of 64 bits.
pub minor_delta : ℕ → ℕ → ℕ
minor_delta a b = (a + 2 ^ 64 - b) % 2 ^ 64

-- A pattern that is negative, or more than 1.
pub out_of_step : ℕ → Bool
out_of_step d = leb (2 ^ 63) d || ltb 1 d

module _ {V C : Type 0} (lib : Semver V C) where
  -- `semver.NewVersion(strings.TrimPrefix(s, "v"))`
  unfoldable pub parse_trimmed : Text → Option V
  unfolding trim_prefix
  parse_trimmed s = lib.new_version (trim_prefix s (text "v"))

  pub is_canonical : ClusterRelease → Option V → Bool
  unfolding str_eq
  is_canonical r none = false
  is_canonical r (some v) = str_eq (lib.prerelease v) [] && str_eq r.kubernetes (lib.print v)

  pub is_stable : Option V → Bool
  unfolding str_eq
  is_stable none = false
  is_stable (some v) = str_eq (lib.prerelease v) []

  -- The test that Kubernetes advances by a patch or by one minor.
  pub is_advance : V → V → Bool
  unfolding out_of_step minor_delta
  is_advance previous v =
      lib.greater_than v previous
      && lib.major v == lib.major previous
      && not (out_of_step (minor_delta (lib.minor v) (lib.minor previous)))

  -- The test that Kubespray goes along, given the step of Kubernetes.
  pub is_aligned : ℕ → V → V → Bool
  unfolding minor_delta
  is_aligned delta previous v =
      lib.major v == lib.major previous
      && not (lib.less_than v previous)
      && minor_delta (lib.minor v) (lib.minor previous) == delta

  pub validate_alignment : ℕ → ℕ → Option V → Option V → List Problem
  unfolding is_aligned
  validate_alignment i delta (some previous) (some v) =
      when (not (is_aligned delta previous v)) (not_aligned i)
  validate_alignment i delta _ _ = []

  -- The step from the versions before, where there are such.
  pub validate_step : ℕ → Option V → Option V → Option V → Option V → List Problem
  unfolding is_advance minor_delta validate_alignment
  validate_step i (some previous) previous_kubespray (some v) kubespray =
      when (not (is_advance previous v)) (must_advance i)
      ++ validate_alignment i (minor_delta (lib.minor v) (lib.minor previous)) previous_kubespray
          kubespray
  validate_step i _ _ _ _ = []

  -- The version that the next release is compared with.
  pub later : Option V → Option V → Option V
  later (some v) previous = some v
  later none previous = previous

  -- One turn of the loop, given the URL of the first release.
  pub validate_release : ℕ → Text → Option V → Option V → ClusterRelease → List Problem
  unfolding parse_trimmed is_canonical is_stable validate_git_source validate_checksums
      validate_step str_eq
  validate_release i url previous previous_kubespray r =
      let v = parse_trimmed r.kubernetes in
      let s = parse_trimmed r.kubespray.version in
      when (not (is_canonical r v)) (not_canonical i)
      ++ (map (of_source i) (validate_git_source r.kubespray)
          ++ (when (not (is_stable s)) (not_stable i)
              ++ (when (not (i == 0 || str_eq r.kubespray.url url)) (changes_repository i)
                  ++ (validate_checksums i r.checksums
                      ++ validate_step i previous previous_kubespray v s))))

  pub validate_from : ℕ → Text → Option V → Option V → List ClusterRelease → List Problem
  unfolding validate_release later parse_trimmed
  validate_from i url previous previous_kubespray [] = []
  validate_from i url previous previous_kubespray (r ∷ rs) =
      validate_release i url previous previous_kubespray r
      ++ validate_from (suc i) (if i == 0 then r.kubespray.url else url)
          (later (parse_trimmed r.kubernetes) previous)
          (later (parse_trimmed r.kubespray.version) previous_kubespray) rs

  -- `validateClusterReleases`
  unfoldable pub validate_cluster_releases : List ClusterRelease → List Problem
  unfolding validate_from
  validate_cluster_releases [] = no_release ∷ []
  validate_cluster_releases (r ∷ rs) = validate_from 0 [] none none (r ∷ rs)
