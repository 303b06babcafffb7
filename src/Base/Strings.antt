-- ===== src/Base/Strings.antt =====
-- Go strings as lists of bytes, with the functions of package strings that the program calls.
use Prim.Native.Char.{code}
use Prim.Native.String.{String}
use Prim.Native.Nat.{ℕ, suc, ◌+◌, ◌≤◌}
use mathlib.Core.Path.{◌≡◌, refl}
use mathlib.Core.Logic.{◌↔◌, inl, inr}
use mathlib.Core.Bool.{Bool, true, false, ◌&&◌, ◌||◌}
use mathlib.Core.Option.{Option, none, some}
use mathlib.Core.List.{List, [], ◌∷◌, reverse}
use native.Mathlib.Omega.{arith}
use atum.Base.Tests.{Bool-cases, ◌==◌, if◌then◌else◌}
use atum.Base.Lists.{length, drop}

abbrev pub Text : Type 0
Text = List ℕ

-- A literal. The program's literals are ASCII, where a byte is a code point, but for a few marks.
abbrev pub text : String → Text
text String.[] = []
text (String.◌∷◌ c s) = code c ∷ text s

-- `==` on strings
unfoldable pub str_eq : Text → Text → Bool
str_eq [] [] = true
str_eq (a ∷ s) (b ∷ t) = a == b && str_eq s t
str_eq _ _ = false

pub str_eq_refl : (s : Text) → str_eq s s ≡ true
unfolding str_eq
str_eq_refl [] = refl
str_eq_refl (a ∷ s) = ground (arith, str_eq_refl s)

pub str_eq→eq : (s t : Text) → str_eq s t ≡ true → s ≡ t
unfolding str_eq
str_eq→eq [] [] h = refl
str_eq→eq [] (b ∷ t) h = cc
str_eq→eq (a ∷ s) [] h = cc
str_eq→eq (a ∷ s) (b ∷ t) h = ground (arith, str_eq→eq s t)

pub str_eq_iff : (s t : Text) → (str_eq s t ≡ true) ↔ (s ≡ t)
str_eq_iff s t = (str_eq→eq s t, λ e. ground (arith, str_eq_refl s))

-- Whether a text is one of the keys that a Go map or set holds.
unfoldable pub elem : Text → List Text → Bool
unfolding str_eq
elem s [] = false
elem s (t ∷ ts) = str_eq s t || elem s ts

-- `strings.HasPrefix(s, prefix)`
unfoldable pub has_prefix : Text → Text → Bool
has_prefix s [] = true
has_prefix [] (p ∷ ps) = false
has_prefix (c ∷ s) (p ∷ ps) = c == p && has_prefix s ps

-- `strings.HasSuffix(s, suffix)`
unfoldable pub has_suffix : Text → Text → Bool
unfolding has_prefix
has_suffix s suffix = has_prefix (reverse s) (reverse suffix)

-- `strings.Index(s, sub)`; `none` for -1
unfoldable pub index : Text → Text → Option ℕ
unfolding has_prefix
index [] sub = if has_prefix [] sub then some 0 else none
index (c ∷ s) sub =
    let rest = index s sub in
    if has_prefix (c ∷ s) sub then some 0 else elim rest [ none ↦ none | some i ↦ some (suc i) ]

-- `strings.Contains(s, sub)`
unfoldable pub contains : Text → Text → Bool
unfolding index
contains s sub = elim (index s sub) [ none ↦ false | some _ ↦ true ]

-- `strings.TrimPrefix(s, prefix)`
unfoldable pub trim_prefix : Text → Text → Text
unfolding has_prefix
trim_prefix s prefix = if has_prefix s prefix then drop (length prefix) s else s

-- Whether the text has a slash.
unfoldable pub has_slash : Text → Bool
has_slash [] = false
has_slash (c ∷ s) = c == b'/' || has_slash s

pub length-has_prefix : (s p : Text) → has_prefix s p ≡ true → length p ≤ length s
unfolding has_prefix
length-has_prefix s [] h = omega arith
length-has_prefix [] (c ∷ p) h = cc
length-has_prefix (d ∷ s) (c ∷ p) h = omega (arith, length-has_prefix s p (ground (arith, h)))

-- What is found stands inside.
pub index-le : (s sub : Text) (i : ℕ) → index s sub ≡ some i → i + length sub ≤ length s
unfolding index
index-le [] sub i h = elim (Bool-cases (has_prefix [] sub)) [
  | inl t ↦ ground (arith, h, length-has_prefix [] sub t)
  | inr t ↦ ground (arith, h, t)
]
index-le (c ∷ s) sub i h = elim (Bool-cases (has_prefix (c ∷ s) sub)) [
  | inl t ↦ ground (arith, h, t, length-has_prefix (c ∷ s) sub t)
  | inr t ↦ later (index s sub) refl t (index-le s sub)
]
  where
    later :
        (o : Option ℕ)
        → index s sub ≡ o
        → has_prefix (c ∷ s) sub ≡ false
        → ((j : ℕ) → index s sub ≡ some j → j + length sub ≤ length s)
        → i + length sub ≤ suc (length s)
    later none e t r = ground (arith, h, e, t)
    later (some j) e t r = ground (arith, h, e, t, r j e)
