-- ===== src/Orchestration/Equal.antt =====
-- `reflect.DeepEqual` of cli/orchestration/upgrade.go on releases, field by field.
use atum.Base.{
  Bool, true, false, ◌&&◌, Option, none, some, List, [], ◌∷◌, str_eq, str_eq_refl, ◌≡◌, refl, arith,
}
use atum.Ladder.{Asset, GitSource, ClusterRelease}

-- `reflect.DeepEqual` on assets, slices, sources and releases.
pub same_asset : Asset → Asset → Bool
unfolding str_eq
same_asset a b =
    str_eq a.id b.id
    && str_eq a.url b.url
    && str_eq a.file b.file
    && str_eq a.source_sha256 b.source_sha256
    && str_eq a.sha256 b.sha256

pub same_list : {A : Type 0} → (A → A → Bool) → List A → List A → Bool
same_list same [] [] = true
same_list same (x ∷ xs) (y ∷ ys) = same x y && same_list same xs ys
same_list same _ _ = false

pub same_slice : {A : Type 0} → (A → A → Bool) → Option (List A) → Option (List A) → Bool
unfolding same_list
same_slice same none none = true
same_slice same (some xs) (some ys) = same_list same xs ys
same_slice same _ _ = false

pub same_source : GitSource → GitSource → Bool
unfolding same_slice same_asset str_eq
same_source a b =
    str_eq a.url b.url
    && str_eq a.version b.version
    && str_eq a.ref b.ref
    && str_eq a.branch b.branch
    && str_eq a.commit b.commit
    && same_slice str_eq a.patches b.patches
    && str_eq a.kube_version b.kube_version
    && same_slice same_asset a.assets b.assets

unfoldable pub deep_equal : ClusterRelease → ClusterRelease → Bool
unfolding same_source str_eq
deep_equal a b =
    str_eq a.kubernetes b.kubernetes
    && same_source a.kubespray b.kubespray
    && str_eq a.checksums.kubelet b.checksums.kubelet
    && str_eq a.checksums.kubeadm b.checksums.kubeadm
    && str_eq a.checksums.kubectl b.checksums.kubectl

-- `len(plan.Steps) == 1 && reflect.DeepEqual(plan.Steps[0], r)`
unfoldable pub is_only : List ClusterRelease → Option ClusterRelease → Bool
unfolding deep_equal
is_only (s ∷ []) (some r) = deep_equal s r
is_only _ _ = false

-- Every release is deeply equal to itself.
same_asset_refl : (a : Asset) → same_asset a a ≡ true
unfolding same_asset
same_asset_refl a = ground (
  arith,
  str_eq_refl a.id,
  str_eq_refl a.url,
  str_eq_refl a.file,
  str_eq_refl a.source_sha256,
  str_eq_refl a.sha256,
)

same_slice_refl :
    {A : Type 0} (same : A → A → Bool)
    → ((a : A) → same a a ≡ true)
    → (xs : Option (List A)) → same_slice same xs xs ≡ true
unfolding same_slice same_list
same_slice_refl same h none = refl
same_slice_refl same h (some []) = refl
same_slice_refl same h (some (x ∷ xs)) = rw (h x) (same_slice_refl same h (some xs))

pub deep_equal_refl : (r : ClusterRelease) → deep_equal r r ≡ true
unfolding deep_equal same_source
deep_equal_refl r = ground (
  arith,
  str_eq_refl r.kubernetes,
  str_eq_refl r.kubespray.url,
  str_eq_refl r.kubespray.version,
  str_eq_refl r.kubespray.ref,
  str_eq_refl r.kubespray.branch,
  str_eq_refl r.kubespray.commit,
  same_slice_refl str_eq str_eq_refl r.kubespray.patches,
  str_eq_refl r.kubespray.kube_version,
  same_slice_refl same_asset same_asset_refl r.kubespray.assets,
  str_eq_refl r.checksums.kubelet,
  str_eq_refl r.checksums.kubeadm,
  str_eq_refl r.checksums.kubectl,
)
