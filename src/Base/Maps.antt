-- ===== src/Base/Maps.antt =====
-- Go maps keyed by strings, as association lists; what is put stands last.
use mathlib.Core.Path.{◌≡◌, refl, sym, subst, ◌∙◌}
use mathlib.Core.Logic.{inl, inr}
use mathlib.Core.Bool.{false}
use mathlib.Core.Option.{Option, none, some}
use mathlib.Core.List.{List, [], ◌∷◌, ◌++◌}
use native.Mathlib.Omega.{arith}
use atum.Base.Tests.{if◌then◌else◌, Bool-cases}
use atum.Base.Strings.{Text, str_eq, str_eq_refl, str_eq_iff}

module _ {V : Type 0} where
  -- `m[k]`, or `none`
  unfoldable pub lookup : Text → List (Text × V) → Option V
  unfolding str_eq
  lookup k [] = none
  lookup k ((j, v) ∷ m) = let rest = lookup k m in if str_eq j k then some v else rest

  -- `delete(m, k)`
  unfoldable pub delete_key : Text → List (Text × V) → List (Text × V)
  unfolding str_eq
  delete_key k [] = []
  delete_key k ((j, v) ∷ m) =
      let rest = delete_key k m in if str_eq j k then rest else (j, v) ∷ rest

  -- `m[k] = v`
  unfoldable pub put : Text → V → List (Text × V) → List (Text × V)
  unfolding delete_key
  put k v m = delete_key k m ++ (k, v) ∷ []

  lookup-append :
      (k : Text) (v : V) (m : List (Text × V))
      → lookup k m ≡ none
      → lookup k (m ++ (k, v) ∷ []) ≡ some v
  unfolding lookup
  lookup-append k v [] h = ground (arith, str_eq_refl k)
  lookup-append k v ((j, w) ∷ m) h = ground (arith, h, lookup-append k v m)

  lookup-delete_key : (k : Text) (m : List (Text × V)) → lookup k (delete_key k m) ≡ none
  unfolding lookup delete_key
  lookup-delete_key k [] = refl
  lookup-delete_key k ((j, w) ∷ m) = ground (arith, lookup-delete_key k m)

  pub lookup-put_self : (k : Text) (v : V) (m : List (Text × V)) → lookup k (put k v m) ≡ some v
  unfolding put
  lookup-put_self k v m = lookup-append k v (delete_key k m) (lookup-delete_key k m)

  lookup-append_other :
      (j k : Text) (v : V) (m : List (Text × V))
      → str_eq k j ≡ false
      → lookup j (m ++ (k, v) ∷ []) ≡ lookup j m
  unfolding lookup
  lookup-append_other j k v [] h = ground (arith, h)
  lookup-append_other j k v ((i, w) ∷ m) h = ground (arith, lookup-append_other j k v m h)

  lookup-delete_other :
      (j k : Text) (m : List (Text × V))
      → str_eq k j ≡ false
      → lookup j (delete_key k m) ≡ lookup j m
  unfolding lookup delete_key
  lookup-delete_other j k [] h = refl
  lookup-delete_other j k ((i, w) ∷ m) h = elim (Bool-cases (str_eq i k)) [
    | inl e ↦ ground (
      arith,
      e,
      subst (λ x. str_eq x j ≡ false) (sym ((str_eq_iff i k).0 e)) h,
      lookup-delete_other j k m h,
    )
    | inr e ↦ ground (arith, e, lookup-delete_other j k m h)
  ]

  -- What is put at another key stays.
  pub lookup-put_other :
      (j k : Text) (v : V) (m : List (Text × V))
      → str_eq k j ≡ false
      → lookup j (put k v m) ≡ lookup j m
  unfolding put
  lookup-put_other j k v m h =
      lookup-append_other j k v (delete_key k m) h ∙ lookup-delete_other j k m h
