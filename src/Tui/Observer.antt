-- ===== src/Tui/Observer.antt =====
-- cli/tui/parser.go: `lineObserver`, which cuts the output of a command into lines.
pub mod Chunks
use atum.Base.{
  ℕ, ◌+◌, ◌-◌, Bool, true, false, not, ◌&&◌, List, [], ◌∷◌, ◌++◌, Text, length, ◌==◌, leb,
  if◌then◌else◌,
}

-- `observedLineLimit`
abbrev pub line_limit : ℕ
line_limit = 131072

-- `lineObserver`; `observed` are the lines that the session has been given, the first one first.
pub record Observer : Type 0 where
  pub buffer : Text
  pub drop : Bool
  pub observed : List Text

-- The bytes of one part of a line.
unfoldable pub add_part : Text → Observer → Observer
add_part part s =
    if s.drop
    then s
    else if leb (length part) (line_limit - length s.buffer)
    then record s { buffer = s.buffer ++ part }
    else record s { buffer = []; drop = true }

-- `flush`
unfoldable pub flush : Observer → Observer
flush s = record {
  buffer = [];
  drop = false;
  observed =
      if not s.drop && not (length s.buffer == 0)
      then s.observed ++ (s.buffer ∷ [])
      else s.observed;
}

-- What is left after the last line feed, if anything is.
abbrev pub add_rest : Text → Observer → Observer
add_rest [] s = s
add_rest (p ∷ part) s = add_part (p ∷ part) s

-- The loop of `Write`, byte after byte: `part` holds the bytes since the last line feed, `consumed`
-- counts those before.
unfoldable pub write_from : ℕ → Text → Text → Observer → ℕ × Observer
write_from consumed part [] s = (consumed + length part, add_rest part s)
write_from consumed part (c ∷ input) s = elim (c == 10) [
  | true ↦ write_from (consumed + length part + 1) [] input (flush (add_part part s))
  | false ↦ write_from consumed (part ++ (c ∷ [])) input s
]

-- `Write`
unfoldable pub write : Text → Observer → ℕ × Observer
write input s = write_from 0 [] input s

-- `Close`
unfoldable pub close : Observer → Observer
unfolding flush
close s =
    let t = if not (length s.buffer == 0) && not s.drop then flush s else s in
    record t { buffer = [] }
