-- ===== src/Tui/Tail.antt =====
-- cli/tui/tail.go: the last lines of a log, in a ring.
pub mod Refine
pub mod Write
use atum.Base.{
  ℕ, suc, ◌+◌, ◌-◌, ◌%◌, ◌^◌, Bool, true, false, ◌&&◌, ◌||◌, Option, none, some, List, [], ◌∷◌,
  ◌++◌, Text, text, length, take, ◌==◌, ltb, leb, if◌then◌else◌,
}

-- `logTailLineLimit` and `logTailByteLimit`
abbrev pub line_limit : ℕ
line_limit = 128

abbrev pub byte_limit : ℕ
byte_limit = 4096

-- `logTail`. The array is the function of its indices.
pub record Tail : Type 0 where
  pub lines : ℕ → Text
  pub partial : Text
  pub start : ℕ
  pub count : ℕ
  pub revision : ℕ
  pub published : ℕ
  pub truncated : Bool

-- `logSnapshotMsg`
pub record Snapshot : Type 0 where
  pub lines : ℕ → Text
  pub start : ℕ
  pub count : ℕ
  pub partial : Text

-- `newLogTail`
abbrev pub new_log_tail : Tail
new_log_tail = record {
  lines = λ _. [];
  partial = [];
  start = 0;
  count = 0;
  revision = 0;
  published = 0;
  truncated = false;
}

-- An addition of one on uint64.
abbrev pub next : ℕ → ℕ
next n = (n + 1) % 2 ^ 64

-- What the package takes from elsewhere: `ansi.Strip`, the runes of a string, and their bytes.
pub record Encoding : Type 0 where
  pub strip : Text → Text
  pub runes : Text → List ℕ
  pub encode : List ℕ → Text

-- `unicode.IsControl`
pub is_control : ℕ → Bool
is_control c = ltb c 32 || leb 127 c && ltb c 160

pub any_control : List ℕ → Bool
unfolding is_control
any_control [] = false
any_control (c ∷ s) = is_control c || any_control s

pub without_control : List ℕ → List ℕ
unfolding is_control
without_control [] = []
without_control (c ∷ s) =
    let rest = without_control s in
    if c == 9 then 32 ∷ rest else if is_control c then rest else c ∷ rest

pub has_escape : Text → Bool
has_escape [] = false
has_escape (c ∷ s) = c == 27 || has_escape s

-- The three bytes of the ellipsis.
abbrev pub ellipsis : Text
ellipsis = 226 ∷ 128 ∷ 166 ∷ []

module _ (encoding : Encoding) where
  abbrev pub sanitized : Text → Text
  sanitized line =
      if any_control (encoding.runes line)
      then encoding.encode (without_control (encoding.runes line))
      else line

  -- `sanitizeLogLine`
  unfoldable pub sanitize_log_line : Text → Text
  unfolding any_control without_control has_escape
  sanitize_log_line line = sanitized (if has_escape line then encoding.strip line else line)

  -- The line that `partial` stands for.
  abbrev pub shown : Text → Bool → Text
  shown partial truncated =
      if truncated then sanitize_log_line partial ++ ellipsis else sanitize_log_line partial

  -- `appendPartial`
  unfoldable pub append_partial : Text → Tail → Tail
  append_partial input tail =
      let remaining = byte_limit - length tail.partial in
      if remaining == 0
      then if tail.truncated
        then tail
        else record tail { truncated = true; revision = next tail.revision }
      else if ltb remaining (length input)
      then record tail {
        partial = tail.partial ++ take remaining input;
        truncated = true;
        revision = next tail.revision;
      }
      else record tail { partial = tail.partial ++ input; revision = next tail.revision }

  abbrev pub store : ℕ → Text → (ℕ → Text) → ℕ → Text
  store i line lines j = if j == i then line else lines j

  -- A line in the place of the oldest, when the ring is full, and one after the last.
  abbrev pub overwrite : Text → Tail → Tail
  overwrite line tail = record tail {
    lines = store tail.start line tail.lines;
    start = (tail.start + 1) % line_limit;
    partial = [];
    truncated = false;
    revision = next tail.revision;
  }

  abbrev pub extend : Text → Tail → Tail
  extend line tail = record tail {
    lines = store ((tail.start + tail.count) % line_limit) line tail.lines;
    count = suc tail.count;
    partial = [];
    truncated = false;
    revision = next tail.revision;
  }

  -- `commitPartial`
  unfoldable pub commit_partial : Tail → Tail
  commit_partial tail =
      let line = shown tail.partial tail.truncated in
      if tail.count == line_limit then overwrite line tail else extend line tail

  -- What is left after the last separator, if anything is.
  abbrev pub append_rest : Text → Tail → Tail
  append_rest [] tail = tail
  append_rest (p ∷ part) tail = append_partial (p ∷ part) tail

  -- The loop of `Write`, byte after byte. `part` holds the bytes since the last separator, and
  -- `after_return` says that this was a carriage return, whose line feed is skipped.
  unfoldable pub write_from : Bool → Text → Text → Tail → Tail
  write_from after_return part [] tail = append_rest part tail
  write_from after_return part (c ∷ input) tail = elim (after_return && c == 10) [
    | true ↦ write_from false part input tail
    | false ↦ elim (c == 10 || c == 13) [
      | true ↦ write_from (c == 13) [] input (commit_partial (append_partial part tail))
      | false ↦ write_from false (part ++ (c ∷ [])) input tail
    ]
  ]

  -- `Write`
  unfoldable pub write : Text → Tail → Tail
  write input tail = write_from false [] input tail

  -- `snapshot`: what is to be shown, if anything has changed since the last one.
  unfoldable pub snapshot : Tail → Option Snapshot × Tail
  snapshot tail = if tail.revision == tail.published then (none, tail) else (
    some (record {
      lines = tail.lines;
      start = tail.start;
      count = tail.count;
      partial = shown tail.partial tail.truncated;
    }),
    record tail { published = tail.revision },
  )
