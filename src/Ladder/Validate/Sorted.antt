-- ===== src/Ladder/Validate/Sorted.antt =====
-- What stands where on an admitted ladder.
use atum.Base.{
  ℕ, zero, suc, ◌<◌, true, Option, some, List, [], ◌∷◌, Text, length, get_elem?, ◌≡◌, refl, sym, ap,
  subst, ◌∙◌, some_injective, arith,
}
use atum.Ladder.{ClusterRelease, Semver, IsSemver, target_release}
use atum.Ladder.Validate.Admitted.{IsVersionOf, IsNext, Chain}

-- The target is the last release.
pub get_elem?-target_release :
    (rs : List ClusterRelease) (t : ClusterRelease)
    → target_release rs ≡ some t
    → (i : ℕ) × (get_elem? rs i ≡ some t) × (suc i ≡ length rs)
unfolding target_release
get_elem?-target_release [] t h = cc
get_elem?-target_release (r ∷ []) t h = (0, h, refl)
get_elem?-target_release (r ∷ (s ∷ rs)) t h =
    let (i, at, last) = get_elem?-target_release (s ∷ rs) t h in (suc i, at, ap suc last)

module _ {V C : Type 0} (lib : Semver V C) where
  -- Every release of the ladder names its version.
  pub Chain-IsVersionOf :
      (p : Option V) (rs : List ClusterRelease) (i : ℕ) (r : ClusterRelease)
      → Chain lib p rs
      → get_elem? rs i ≡ some r
      → (v : V) × IsVersionOf lib r v
  Chain-IsVersionOf p [] i r c h = cc
  Chain-IsVersionOf p (s ∷ rs) zero r (v, is, follows, c) h =
      (v, subst (λ x. IsVersionOf lib x v) (some_injective _ _ h) is)
  Chain-IsVersionOf p (s ∷ rs) (suc i) r (v, is, follows, c) h =
      Chain-IsVersionOf (some v) rs i r c h

  module _ (laws : IsSemver lib) where
    -- A version is determined by how it is printed.
    pub print_injective : (u v : V) → lib.print u ≡ lib.print v → u ≡ v
    print_injective u v h =
        some_injective _ _ (sym (laws.parse_print u) ∙ ap lib.new_version h ∙ laws.parse_print v)

    -- A release that names a version is parsed to it.
    pub new_version-IsVersionOf :
        (r : ClusterRelease) (u v : V)
        → IsVersionOf lib r v
        → lib.new_version r.kubernetes ≡ some u
        → u ≡ v
    new_version-IsVersionOf r u v is h =
        some_injective _ _ (sym h ∙ ap lib.new_version (sym is.printed) ∙ laws.parse_print v)

    -- The next release names the next version.
    pub Chain-IsNext :
        (p : Option V) (rs : List ClusterRelease) (i : ℕ) (r s : ClusterRelease) (u v : V)
        → Chain lib p rs
        → get_elem? rs i ≡ some r
        → get_elem? rs (suc i) ≡ some s
        → IsVersionOf lib r u
        → IsVersionOf lib s v
        → IsNext lib u v
    Chain-IsNext p [] i r s u v c h k a b = cc
    Chain-IsNext p (q ∷ []) zero r s u v c h k a b = cc
    Chain-IsNext p (q ∷ (q' ∷ rs)) zero r s u v (w, is, follows, (w', is', next, c)) h k a b =
        subst (λ x. IsNext lib u x)
          (print_injective w' v
            (is'.printed ∙ ap kubernetes_of (some_injective _ _ k) ∙ sym b.printed))
          (subst (λ x. IsNext lib x w')
            (print_injective w u
              (is.printed ∙ ap kubernetes_of (some_injective _ _ h) ∙ sym a.printed))
            next)
      where
        kubernetes_of : ClusterRelease → Text
        kubernetes_of r = r.kubernetes
    Chain-IsNext p (q ∷ rs) (suc i) r s u v (w, is, follows, c) h k a b =
        Chain-IsNext (some w) rs i r s u v c h k a b

    -- All that stands behind a version is later.
    Chain-later :
        (p : V) (rs : List ClusterRelease) (i : ℕ) (r : ClusterRelease) (v : V)
        → Chain lib (some p) rs
        → get_elem? rs i ≡ some r
        → IsVersionOf lib r v
        → lib.less_than p v ≡ true
    Chain-later p [] i r v c h a = cc
    Chain-later p (q ∷ rs) zero r v (w, is, next, c) h a =
        subst (λ x. lib.less_than p x ≡ true)
          (print_injective w v
            (is.printed ∙ ap kubernetes_of (some_injective _ _ h) ∙ sym a.printed))
          next.grows
      where
        kubernetes_of : ClusterRelease → Text
        kubernetes_of r = r.kubernetes
    Chain-later p (q ∷ rs) (suc i) r v (w, is, next, c) h a =
        laws.transitive p w v next.grows (Chain-later w rs i r v c h a)

    -- Of two releases the one behind names a later version.
    pub Chain-sorted :
        (p : Option V) (rs : List ClusterRelease) (i j : ℕ) (r s : ClusterRelease) (u v : V)
        → Chain lib p rs
        → i < j
        → get_elem? rs i ≡ some r
        → get_elem? rs j ≡ some s
        → IsVersionOf lib r u
        → IsVersionOf lib s v
        → lib.less_than u v ≡ true
    Chain-sorted p [] i j r s u v c lt h k a b = cc
    Chain-sorted p (q ∷ rs) i zero r s u v c lt h k a b = absurd (omega arith)
    Chain-sorted p (q ∷ rs) zero (suc j) r s u v (w, is, next, c) lt h k a b =
        subst (λ x. lib.less_than x v ≡ true)
          (print_injective w u
            (is.printed ∙ ap kubernetes_of (some_injective _ _ h) ∙ sym a.printed))
          (Chain-later w rs j s v c k b)
      where
        kubernetes_of : ClusterRelease → Text
        kubernetes_of r = r.kubernetes
    Chain-sorted p (q ∷ rs) (suc i) (suc j) r s u v (w, is, next, c) lt h k a b =
        Chain-sorted (some w) rs i j r s u v c (omega arith) h k a b
