-- ===== src/Update/Encode.antt =====
-- What `json.MarshalIndent` and the decoder of cli/update/transaction.go make of a journal: a string comes
-- back with U+FFFD for each byte that begins no rune, everything else as it was.
pub mod Reads
use atum.Base.{
  ℕ, zero, suc, Bool, true, false, ◌&&◌, ◌||◌, not, List, [], ◌∷◌, map, Text, ◌==◌, leb,
  if◌then◌else◌,
}
use atum.Update.Disk.{Version, Record, Journal}

pub is_between : ℕ → ℕ → ℕ → Bool
is_between low high c = leb low c && leb c high

pub has_two : ℕ → ℕ → Bool
unfolding is_between
has_two a b = is_between 194 223 a && is_between 128 191 b

pub has_three : ℕ → ℕ → ℕ → Bool
unfolding is_between
has_three a b c =
    is_between 128 191 c
    && (a == 224 && is_between 160 191 b
        || a == 237 && is_between 128 159 b
        || (is_between 225 236 a || is_between 238 239 a) && is_between 128 191 b)

pub has_four : ℕ → ℕ → ℕ → ℕ → Bool
unfolding is_between
has_four a b c d =
    is_between 128 191 c
    && is_between 128 191 d
    && (a == 240 && is_between 144 191 b
        || a == 244 && is_between 128 143 b
        || is_between 241 243 a && is_between 128 191 b)

-- How many bytes of a rune follow the first byte, or 4 where no rune begins (`utf8.DecodeRuneInString`).
unfoldable pub rest_of_rune : Text → ℕ
unfolding is_between has_two has_three has_four
rest_of_rune [] = 4
rest_of_rune (a ∷ []) = if leb a 127 then 0 else 4
rest_of_rune (a ∷ b ∷ []) = if leb a 127 then 0 else if has_two a b then 1 else 4
rest_of_rune (a ∷ b ∷ c ∷ []) =
    if leb a 127 then 0 else if has_two a b then 1 else if has_three a b c then 2 else 4
rest_of_rune (a ∷ b ∷ c ∷ d ∷ s) =
    if leb a 127
    then 0
    else if has_two a b
    then 1
    else if has_three a b c
    then 2
    else if has_four a b c d
    then 3
    else 4

-- A string as it is read back; the number is that of the bytes of a rune that are still to come.
unfoldable pub read_back : ℕ → Text → Text
unfolding rest_of_rune
read_back n [] = []
read_back (suc n) (a ∷ s) = a ∷ read_back n s
read_back zero (a ∷ s) = elim (rest_of_rune (a ∷ s)) [
  | suc (suc (suc (suc _))) ↦ 239 ∷ 191 ∷ 189 ∷ read_back 0 s
  | n ↦ a ∷ read_back n s
]

-- `utf8.ValidString`, from within a rune.
unfoldable pub is_utf8 : ℕ → Text → Bool
unfolding rest_of_rune
is_utf8 n [] = true
is_utf8 (suc n) (a ∷ s) = is_utf8 n s
is_utf8 zero (a ∷ s) = elim (rest_of_rune (a ∷ s)) [
  | suc (suc (suc (suc _))) ↦ false
  | n ↦ is_utf8 n s
]

abbrev pub encoded_version : Version → Version
encoded_version v = record v { digest = read_back 0 v.digest }

abbrev pub encoded_record : Record → Record
encoded_record r = record {
  path = read_back 0 r.path;
  original = encoded_version r.original;
  candidate = encoded_version r.candidate;
}

-- The journal that the decoder reads from what is written.
unfoldable pub encoded : Journal → Journal
encoded j = record {
  schema_version = read_back 0 j.schema_version;
  state = read_back 0 j.state;
  files = map encoded_record j.files;
}
