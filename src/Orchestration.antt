-- ===== src/Orchestration.antt =====
-- The data of cli/orchestration: the upgrade plan, what a service is configured with, and the results
-- of its operations.
pub mod Position
pub mod Equal
pub mod Constraints
pub mod Plan
pub mod Admit
pub mod Health
pub mod Prepare
pub mod Outside
pub mod Converge
pub mod Tests
use atum.Base.{
  ℕ, Bool, true, false, ◌&&◌, Option, none, some, List, [], ◌∷◌, Text, if◌then◌else◌, ◌≡◌, refl,
}
use atum.Ladder.{ClusterRelease}

-- `UpgradeOrder`, a string: its four values and any other.
pub data UpgradeOrder : Type 0 where
  install_target platform_first kubernetes_first already_current : UpgradeOrder
  other_order : Text → UpgradeOrder

-- `ConvergenceMode`, a number of 8 bits: its three values and any other.
pub data ConvergenceMode : Type 0 where
  apply_convergence upgrade_convergence full_convergence : ConvergenceMode
  other_mode : ℕ → ConvergenceMode

-- `UpgradePlan`
pub record UpgradePlan : Type 0 where
  pub current : Text
  pub target : Text
  pub order : UpgradeOrder
  pub steps : List ClusterRelease

-- `CompatibilityConstraint`
pub record CompatibilityConstraint : Type 0 where
  pub id : Text
  pub constraint : Text

-- What the code reads of `service.Project`: the ladder, the switch for automatic upgrades, and the
-- locked constraints.
pub record Project : Type 0 where
  pub releases : List ClusterRelease
  pub automatic_upgrade : Bool
  pub constraints : List CompatibilityConstraint

-- `FluxRootObservation`, without its messages.
pub record FluxRootObservation : Type 0 where
  pub found : Bool
  pub target_current : Bool
  pub source_ready : Bool
  pub helm_release_ready : Bool

-- `Complete`
unfoldable pub is_complete : FluxRootObservation → Bool
is_complete o = o.found && o.target_current && o.source_ready && o.helm_release_ready

pub data Error : Type 0 where
  not_loaded empty_ladder cluster_absent skips incomplete_constraint : Error
  unparsable_live unparsable_target unparsable_next bad_constraint repeated_constraint :
      Text → Error
  newer_than_target not_earlier : Error
  absent_live absent_target unsupported : Text → Error
  bad_order bad_mode other_target bad_install bad_current not_next not_automatic : Error
  needs_cluster needs_platform not_stable_release toolchain_count : Error
  changed_live wrong_toolchain wrong_result changed_inputs unhealthy outside : Error
  not_prepared : Text → Text → Text → Error

-- A result: a value, an error, or a panic for an index out of range.
pub data Result {ℓ} (A : Type ℓ) : Type ℓ where
  ok : A → Result A
  err : Error → Result A
  panic : Result A

infixl 5 ◌>>=◌ ◌>>◌
abbrev pub ◌>>=◌ {ℓ κ} : {A : Type ℓ} {B : Type κ} → Result A → (A → Result B) → Result B
ok a >>= f = f a
err e >>= f = err e
panic >>= f = panic

abbrev pub ◌>>◌ {ℓ} : {B : Type ℓ} → Result (Unit {0}) → Result B → Result B
m >> k = m >>= λ _. k

-- An error where a test holds, as in `if … { return … }`.
abbrev pub refuse : Bool → Error → Result (Unit {0})
refuse true e = err e
refuse false e = ok tt

abbrev pub or_error {ℓ} : {A : Type ℓ} → Error → Option A → Result A
or_error e none = err e
or_error e (some a) = ok a

-- `xs[i]`
abbrev pub or_panic {ℓ} : {A : Type ℓ} → Option A → Result A
or_panic none = panic
or_panic (some a) = ok a

-- What a chain that succeeds says of its parts.
pub >>=-eq-ok {ℓ κ} :
    {A : Type ℓ} {B : Type κ} (m : Result A) (f : A → Result B) (b : B)
    → (m >>= f) ≡ ok b
    → (a : A) × (m ≡ ok a) × (f a ≡ ok b)
>>=-eq-ok (ok a) f b h = (a, refl, h)
>>=-eq-ok (err e) f b h = cc
>>=-eq-ok panic f b h = cc

pub >>-eq-ok {ℓ} :
    {B : Type ℓ} (m : Result (Unit {0})) (k : Result B) (b : B)
    → (m >> k) ≡ ok b
    → (m ≡ ok tt) × (k ≡ ok b)
>>-eq-ok (ok tt) k b h = (refl, h)
>>-eq-ok (err e) k b h = cc
>>-eq-ok panic k b h = cc

pub refuse-eq-ok : (b : Bool) (e : Error) → refuse b e ≡ ok tt → b ≡ false
refuse-eq-ok true e h = cc
refuse-eq-ok false e h = refl

pub or_error-eq-ok {ℓ} :
    {A : Type ℓ} (e : Error) (o : Option A) (a : A) → or_error e o ≡ ok a → o ≡ some a
or_error-eq-ok e none a h = cc
or_error-eq-ok e (some b) a h = cc
