-- ===== src/Tui/Resources/Sets.antt =====
-- Lists without repetitions as sets.
use atum.Base.{
  ◌≤◌, ◌<◌, Bool, true, false, not, ◌&&◌, ◌||◌, Bool-cases, List, [], ◌∷◌, Text, str_eq,
  str_eq_refl, str_eq_iff, length, if_cases, inl, inr, ◌≡◌, refl, ◌∙◌, ap, arith,
}
use atum.Tui.Resources.{has, with_elem, without_elem}

unfoldable pub HasNoRepeat : List Text → Type 0
HasNoRepeat [] = Unit
HasNoRepeat (x ∷ s) = (has x s ≡ false) × HasNoRepeat s

abbrev pub IsSubset : List Text → List Text → Type 0
IsSubset a b = (x : Text) → has x a ≡ true → has x b ≡ true

pub has-with_elem : (x y : Text) (s : List Text) → has x (with_elem y s) ≡ (str_eq x y || has x s)
unfolding has with_elem
has-with_elem x y s =
    if_cases (λ t. has x t ≡ (str_eq x y || has x s)) (has y s) (λ h. known h (str_eq x y) refl)
      (λ _. refl)
  where
    known : has y s ≡ true → (b : Bool) → str_eq x y ≡ b → has x s ≡ (b || has x s)
    known h false e = refl
    known h true e = ap (λ z. has z s) ((str_eq_iff x y).0 e) ∙ h

pub has-without_elem :
    (x y : Text) (s : List Text) → has x (without_elem y s) ≡ (not (str_eq y x) && has x s)
unfolding has without_elem
has-without_elem x y [] = ground arith
has-without_elem x y (z ∷ s) =
    if_cases (λ t. has x t ≡ (not (str_eq y x) && (str_eq x z || has x s))) (str_eq y z)
      (λ h. has-without_elem x y s ∙ same h)
      (λ h. ap (λ b. str_eq x z || b) (has-without_elem x y s) ∙ other h)
  where
    same :
        str_eq y z ≡ true
        → (not (str_eq y x) && has x s) ≡ (not (str_eq y x) && (str_eq x z || has x s))
    same h = ground (arith, h, str_eq_iff y z, str_eq_iff x z, str_eq_iff y x)

    other :
        str_eq y z ≡ false
        → (str_eq x z || (not (str_eq y x) && has x s))
          ≡ (not (str_eq y x) && (str_eq x z || has x s))
    other h = ground (arith, h, str_eq_iff y z, str_eq_iff x z, str_eq_iff y x)

pub with_elem-HasNoRepeat : (y : Text) (s : List Text) → HasNoRepeat s → HasNoRepeat (with_elem y s)
unfolding has with_elem HasNoRepeat
with_elem-HasNoRepeat y s h = if_cases HasNoRepeat (has y s) (λ _. h) (λ n. (n, h))

pub without_elem-HasNoRepeat :
    (y : Text) (s : List Text) → HasNoRepeat s → HasNoRepeat (without_elem y s)
unfolding has without_elem HasNoRepeat
without_elem-HasNoRepeat y [] h = tt
without_elem-HasNoRepeat y (z ∷ s) h =
    if_cases HasNoRepeat (str_eq y z) (λ _. without_elem-HasNoRepeat y s h.1)
      (λ _. (has-without_elem z y s ∙ ground (arith, h.0), without_elem-HasNoRepeat y s h.1))

pub length-without_elem : (y : Text) (s : List Text) → length (without_elem y s) ≤ length s
unfolding without_elem
length-without_elem y [] = omega arith
length-without_elem y (z ∷ s) = ground (arith, length-without_elem y s)

-- Taking out what is there makes it shorter.
length-without_member :
    (y : Text) (s : List Text) → has y s ≡ true → length (without_elem y s) < length s
unfolding has without_elem
length-without_member y [] h = cc
length-without_member y (z ∷ s) h =
    ground (arith, h, length-without_elem y s, length-without_member y s)

-- A set is no longer than one that contains it.
pub length-IsSubset : (a b : List Text) → HasNoRepeat a → IsSubset a b → length a ≤ length b
unfolding HasNoRepeat has
length-IsSubset [] b n s = omega arith
length-IsSubset (x ∷ a) b n s = omega (
  arith,
  length-without_member x b (s x (ground (arith, str_eq_refl x))),
  length-IsSubset a (without_elem x b) n.1 smaller,
)
  where
    smaller : IsSubset a (without_elem x b)
    smaller y h =
        has-without_elem y x b ∙ ground (arith, s y (ground (arith, h)), str_eq_iff x y, h, n.0)

-- One that is as long contains it as well.
pub IsSubset-of_length :
    (a b : List Text) → HasNoRepeat a → IsSubset a b → length a ≡ length b → IsSubset b a
unfolding HasNoRepeat has
IsSubset-of_length a b n s e y h = either (has y a) refl
  where
    either : (x : Bool) → has y a ≡ x → has y a ≡ true
    either true i = i
    either false i = absurd (omega (arith, length-IsSubset (y ∷ a) b (i, n) more, e))
      where
        more : IsSubset (y ∷ a) b
        more z k = elim (Bool-cases (str_eq z y)) [
          | inl t ↦ ap (λ x. has x b) ((str_eq_iff z y).0 t) ∙ h
          | inr f ↦ s z (ground (arith, k, f))
        ]
