-- ===== src/Tui/Observer/Chunks.antt =====
-- The lines observed do not depend on how the output comes in pieces.
use atum.Base.{
  ℕ, ◌+◌, ◌≤◌, Bool, true, false, not, ◌&&◌, ◌||◌, [], ◌∷◌, ◌++◌, append-nil, append_assoc, Text,
  length, length-append, ◌==◌, leb, if◌then◌else◌, ◌≡◌, refl, sym, ◌∙◌, ap, arith,
}
use atum.Tui.Observer.{Observer, line_limit, add_part, flush, write_from, write}

-- The buffer holds a line up to the limit.
abbrev pub IsBounded : Observer → Type 0
IsBounded s = length s.buffer ≤ line_limit

-- One byte.
unfoldable pub byte : ℕ → Observer → Observer
byte c s = elim (c == 10) [ true ↦ flush s | false ↦ add_part (c ∷ []) s ]

unfoldable pub bytes : Text → Observer → Observer
bytes [] s = s
bytes (c ∷ input) s = bytes input (byte c s)

add_part-IsBounded : (part : Text) (s : Observer) → IsBounded s → IsBounded (add_part part s)
unfolding add_part
add_part-IsBounded part s b = ground (arith, length-append s.buffer part)

add_part_nil : (s : Observer) → IsBounded s → add_part [] s ≡ s
unfolding add_part
add_part_nil s b = ground (arith, append-nil s.buffer)

-- Two parts in a row are one.
add_part-append :
    (p q : Text) (s : Observer) → IsBounded s → add_part (p ++ q) s ≡ add_part q (add_part p s)
unfolding add_part
add_part-append p q s b =
    ground (arith, length-append p q, length-append s.buffer p, append_assoc s.buffer p q)

flush-IsBounded : (s : Observer) → IsBounded (flush s)
unfolding flush
flush-IsBounded s = omega arith

bytes-append : (a b : Text) (s : Observer) → bytes (a ++ b) s ≡ bytes b (bytes a s)
unfolding bytes
bytes-append [] b s = refl
bytes-append (c ∷ a) b s = bytes-append a b (byte c s)

elim_bytes :
    (input : Text) (x : Bool) (p q : ℕ × Observer) (u v : Observer)
    → p.1 ≡ bytes input u
    → q.1 ≡ bytes input v
    → (elim x as (λ _. ℕ × Observer) [ true ↦ p | false ↦ q ]).1
      ≡ bytes input (elim x [ true ↦ u | false ↦ v ])
elim_bytes input true p q u v h k = h
elim_bytes input false p q u v h k = k

-- The loop goes byte by byte.
write_from-bytes :
    (n : ℕ) (part input : Text) (s : Observer)
    → IsBounded s
    → (write_from n part input s).1 ≡ bytes input (add_part part s)
unfolding write_from bytes byte
write_from-bytes n [] [] s b = sym (add_part_nil s b)
write_from-bytes n (p ∷ part) [] s b = refl
write_from-bytes n part (c ∷ input) s b =
    elim_bytes input (c == 10) _ _ _ _
      (write_from-bytes (n + length part + 1) [] input (flush (add_part part s))
          (flush-IsBounded (add_part part s))
        ∙ ap (bytes input) (add_part_nil _ (flush-IsBounded (add_part part s))))
      (write_from-bytes n (part ++ (c ∷ [])) input s b
        ∙ ap (bytes input) (add_part-append part (c ∷ []) s b))

write-bytes : (input : Text) (s : Observer) → IsBounded s → (write input s).1 ≡ bytes input s
unfolding write
write-bytes input s b = write_from-bytes 0 [] input s b ∙ ap (bytes input) (add_part_nil s b)

abbrev pub has_feed : Text → Bool
has_feed [] = false
has_feed (c ∷ s) = c == 10 || has_feed s

bytes_of_part :
    (line : Text) (s : Observer)
    → IsBounded s
    → has_feed line ≡ false
    → bytes line s ≡ add_part line s
unfolding bytes byte
bytes_of_part [] s b h = sym (add_part_nil s b)
bytes_of_part (c ∷ line) s b h =
    ap (bytes line) (no_feed (c == 10) (ground (arith, h)))
    ∙ bytes_of_part line (add_part (c ∷ []) s) (add_part-IsBounded (c ∷ []) s b) (ground (arith, h))
    ∙ sym (add_part-append (c ∷ []) line s b)
  where
    no_feed :
        (x : Bool)
        → x ≡ false
        → elim x as (λ _. Observer) [ true ↦ flush s | false ↦ add_part (c ∷ []) s ]
          ≡ add_part (c ∷ []) s
    no_feed true e = cc (e)
    no_feed false e = refl

-- A whole line, with its line feed, is observed if it has a byte and is within the limit, and is
-- dropped otherwise, where no part of a line is waiting.
pub write-line :
    (line : Text) (s : Observer)
    → s.buffer ≡ []
    → s.drop ≡ false
    → has_feed line ≡ false
    → (write (line ++ (10 ∷ [])) s).1 ≡ (
        if not (length line == 0) && leb (length line) line_limit
        then record s { observed = s.observed ++ (line ∷ []) }
        else s)
unfolding bytes byte add_part flush
write-line line s e d h =
    write-bytes (line ++ (10 ∷ [])) s empty
    ∙ bytes-append line (10 ∷ []) s
    ∙ ap (bytes (10 ∷ [])) (bytes_of_part line s empty h)
    ∙ ended
  where
    empty : IsBounded s
    empty = rw e (omega arith)

    ended : bytes (10 ∷ []) (add_part line s) ≡ (
        if not (length line == 0) && leb (length line) line_limit
        then record s { observed = s.observed ++ (line ∷ []) }
        else s)
    ended = ground (arith, e, d)
