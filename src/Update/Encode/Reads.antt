-- ===== src/Update/Encode/Reads.antt =====
-- A journal whose paths are valid UTF-8 is read back as it is written.
use atum.Base.{ℕ, zero, suc, true, false, [], ◌∷◌, Text, ◌≡◌, refl, ap, ◌∙◌, arith}
use atum.Update.Disk.{Record}
use atum.Update.Version.{is_lower_hex, all_lower_hex}
use atum.Update.Encode.{rest_of_rune, read_back, is_utf8, encoded_version, encoded_record}

pub read_back-is_utf8 : (n : ℕ) (s : Text) → is_utf8 n s ≡ true → read_back n s ≡ s
unfolding read_back is_utf8
read_back-is_utf8 n [] h = refl
read_back-is_utf8 (suc n) (a ∷ s) h = ap (λ t. a ∷ t) (read_back-is_utf8 n s h)
read_back-is_utf8 zero (a ∷ s) h = rune (rest_of_rune (a ∷ s)) (λ n k. read_back-is_utf8 n s k) h
  where
    rune :
        (n : ℕ)
        → ((k : ℕ) → is_utf8 k s ≡ true → read_back k s ≡ s)
        → (elim n [ suc (suc (suc (suc _))) ↦ false | k ↦ is_utf8 k s ]) ≡ true
        → (elim n [
          | suc (suc (suc (suc _))) ↦ 239 ∷ 191 ∷ 189 ∷ read_back 0 s
          | k ↦ a ∷ read_back k s
        ])
          ≡ a ∷ s
    rune zero k h = ap (λ t. a ∷ t) (k 0 h)
    rune (suc zero) k h = ap (λ t. a ∷ t) (k 1 h)
    rune (suc (suc zero)) k h = ap (λ t. a ∷ t) (k 2 h)
    rune (suc (suc (suc zero))) k h = ap (λ t. a ∷ t) (k 3 h)
    rune (suc (suc (suc (suc n)))) k h = cc

ascii_rune : (a : ℕ) (s : Text) → is_lower_hex a ≡ true → rest_of_rune (a ∷ s) ≡ 0
unfolding rest_of_rune is_lower_hex
ascii_rune a [] h = ground (arith, h)
ascii_rune a (b ∷ []) h = ground (arith, h)
ascii_rune a (b ∷ c ∷ []) h = ground (arith, h)
ascii_rune a (b ∷ c ∷ d ∷ s) h = ground (arith, h)

pub all_lower_hex-is_utf8 : (s : Text) → all_lower_hex s ≡ true → is_utf8 0 s ≡ true
unfolding all_lower_hex is_utf8
all_lower_hex-is_utf8 [] h = refl
all_lower_hex-is_utf8 (a ∷ s) h =
    rw (ascii_rune a s (ground (arith, h)), is_utf8) (all_lower_hex-is_utf8 s (ground (arith, h)))

pub encoded_record_lem :
    (r : Record)
    → is_utf8 0 r.path ≡ true
    → is_utf8 0 r.original.digest ≡ true
    → is_utf8 0 r.candidate.digest ≡ true
    → encoded_record r ≡ r
encoded_record_lem r p o c =
    ap (λ x. record (encoded_record r) { path = x }) (read_back-is_utf8 0 r.path p)
    ∙ ap
        (λ x. record r {
          original = record r.original { digest = x };
          candidate = encoded_version r.candidate;
        })
        (read_back-is_utf8 0 r.original.digest o)
    ∙ ap (λ x. record r { candidate = record r.candidate { digest = x } })
        (read_back-is_utf8 0 r.candidate.digest c)
