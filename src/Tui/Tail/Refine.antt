-- ===== src/Tui/Tail/Refine.antt =====
-- The ring shows the last lines written.
use atum.Base.{
  ℕ, zero, suc, ◌+◌, ◌-◌, ◌%◌, ◌≤◌, ◌<◌, Bool, true, false, ◌&&◌, ◌||◌, List, [], ◌∷◌, ◌++◌, Text,
  length, length-append, take, drop, ◌==◌, ltb, if_cases, drop-append, eq_of_==, ne_of_==, ◌≡◌, ◌≢◌,
  refl, sym, ◌∙◌, ap, ap₂, arith,
}
use native.Mathlib.Nat.{add-zero}
use atum.Tui.Tail.{Tail, Encoding, line_limit, byte_limit, shown, store, commit_partial}

-- The indices are those of the array, the ring starts to move when it is full, and the partial line is bounded.
pub record IsRing (tail : Tail) : Type 0 where
  pub start : tail.start < line_limit
  pub count : tail.count ≤ line_limit
  pub filling : tail.count < line_limit → tail.start ≡ 0
  pub partial : length tail.partial ≤ byte_limit

-- `n` lines of the ring from index `i` on, the oldest first.
pub lines_from : (ℕ → Text) → ℕ → ℕ → List Text
lines_from lines i zero = []
lines_from lines i (suc n) = lines (i % line_limit) ∷ lines_from lines (suc i) n

-- What the log looks like without the ring: the lines kept, the bytes of the next one, and whether
-- some were dropped.
pub record Log : Type 0 where
  pub kept : List Text
  pub partial : Text
  pub truncated : Bool

abbrev pub log_of : Tail → Log
log_of tail = record {
  kept = lines_from tail.lines tail.start tail.count;
  partial = tail.partial;
  truncated = tail.truncated;
}

-- The last `n` elements.
abbrev pub keep_last : {A : Type 0} → ℕ → List A → List A
keep_last n xs = drop (length xs - n) xs

module _ (encoding : Encoding) where
  -- The end of a line: it is kept, and the oldest may go.
  abbrev pub end_line : Log → Log
  end_line log = record {
    kept = keep_last line_limit (log.kept ++ (shown encoding log.partial log.truncated ∷ []));
    partial = [];
    truncated = false;
  }

  -- Bytes of the next line, up to the limit. A line that is full counts as cut as soon as more is
  -- written, be it nothing.
  abbrev pub add_bytes : Text → Log → Log
  add_bytes input log = record log {
    partial = take byte_limit (log.partial ++ input);
    truncated =
        log.truncated
        || length log.partial == byte_limit
        || ltb byte_limit (length log.partial + length input);
  }

  abbrev pub add_rest : Text → Log → Log
  add_rest [] log = log
  add_rest (p ∷ part) log = add_bytes (p ∷ part) log

  -- What is written, line by line.
  unfoldable pub log_from : Bool → Text → Text → Log → Log
  log_from after_return part [] log = add_rest part log
  log_from after_return part (c ∷ input) log = elim (after_return && c == 10) [
    | true ↦ log_from false part input log
    | false ↦ elim (c == 10 || c == 13) [
      | true ↦ log_from (c == 13) [] input (end_line (add_bytes part log))
      | false ↦ log_from false (part ++ (c ∷ [])) input log
    ]
  ]

length-lines_from : (lines : ℕ → Text) (i n : ℕ) → length (lines_from lines i n) ≡ n
unfolding lines_from
length-lines_from lines i zero = refl
length-lines_from lines i (suc n) = ap suc (length-lines_from lines (suc i) n)

-- Only the indices count.
lines_from_cong :
    (f g : ℕ → Text) (i j n : ℕ)
    → ((k : ℕ) → k < n → f ((i + k) % line_limit) ≡ g ((j + k) % line_limit))
    → lines_from f i n ≡ lines_from g j n
unfolding lines_from
lines_from_cong f g i j zero h = refl
lines_from_cong f g i j (suc n) h =
    ap₂ ◌∷◌
      (ap (λ m. f (m % line_limit)) (sym (add-zero i))
        ∙ h 0 (omega arith)
        ∙ ap (λ m. g (m % line_limit)) (add-zero j))
      (lines_from_cong f g (suc i) (suc j) n (λ k l.
        ap (λ m. f (m % line_limit)) (shift i k)
        ∙ h (suc k) (omega arith)
        ∙ ap (λ m. g (m % line_limit)) (sym (shift j k))))
  where
    shift : (i k : ℕ) → suc i + k ≡ i + suc k
    shift i k = omega arith

-- The last line of a row.
lines_from-suc :
    (f : ℕ → Text) (i n : ℕ)
    → lines_from f i (suc n) ≡ lines_from f i n ++ (f ((i + n) % line_limit) ∷ [])
unfolding lines_from
lines_from-suc f i zero = ap (λ m. f (m % line_limit) ∷ []) (sym (add-zero i))
lines_from-suc f i (suc n) =
    ap (λ l. f (i % line_limit) ∷ l)
      (lines_from-suc f (suc i) n
        ∙ ap (λ m. lines_from f (suc i) n ++ (f (m % line_limit) ∷ [])) shift)
  where
    shift : suc i + n ≡ i + suc n
    shift = omega arith

-- A row that does not use the index stored at.
lines_from-store :
    (encoding : Encoding) (f : ℕ → Text) (x : Text) (s i n : ℕ)
    → ((k : ℕ) → k < n → (i + k) % line_limit ≢ s)
    → lines_from (store encoding s x f) i n ≡ lines_from f i n
lines_from-store encoding f x s i n h =
    lines_from_cong (store encoding s x f) f i i n (λ k l. elsewhere k (h k l))
  where
    elsewhere :
        (k : ℕ)
        → (i + k) % line_limit ≢ s
        → store encoding s x f ((i + k) % line_limit) ≡ f ((i + k) % line_limit)
    elsewhere k ne = ground arith

store_self : (encoding : Encoding) (f : ℕ → Text) (x : Text) (s : ℕ) → store encoding s x f s ≡ x
store_self encoding f x s = ground arith

full_row :
    (encoding : Encoding) (f : ℕ → Text) (x : Text) (s n : ℕ)
    → n ≡ line_limit
    → s < line_limit
    → lines_from (store encoding s x f) ((s + 1) % line_limit) n
      ≡ drop 1 (lines_from f s n) ++ (x ∷ [])
unfolding lines_from
full_row encoding f x s zero e l = absurd (omega arith)
full_row encoding f x s (suc m) e l =
    lines_from-suc (store encoding s x f) ((s + 1) % line_limit) m
    ∙ ap₂ (λ l y. l ++ (y ∷ []))
        (lines_from-store encoding f x s ((s + 1) % line_limit) m (λ k h d. absurd (omega arith))
          ∙ lines_from_cong f f ((s + 1) % line_limit) (suc s) m (λ k h. ap f (omega arith)))
        (ap (store encoding s x f) last ∙ store_self encoding f x s)
  where
    last : ((s + 1) % line_limit + m) % line_limit ≡ s
    last = omega arith

module _ (encoding : Encoding) where
  -- Filling: the line comes at the end.
  commit_filling :
      (tail : Tail)
      → IsRing tail
      → tail.count < line_limit
      → lines_from
          (store encoding
            ((tail.start + tail.count) % line_limit)
            (shown encoding tail.partial tail.truncated)
            tail.lines)
          tail.start
          (suc tail.count)
        ≡ lines_from tail.lines tail.start tail.count
          ++ (shown encoding tail.partial tail.truncated ∷ [])
  commit_filling tail r h =
      lines_from-suc _ tail.start tail.count
      ∙ ap₂ (λ l x. l ++ (x ∷ []))
          (lines_from-store encoding tail.lines _ _ tail.start tail.count
            (λ k l e. absurd (omega (arith, r.filling h))))
          (store_self encoding tail.lines _ ((tail.start + tail.count) % line_limit))

  -- Full: it takes the place of the oldest.
  commit_full :
      (tail : Tail)
      → IsRing tail
      → tail.count ≡ line_limit
      → lines_from
          (store encoding tail.start (shown encoding tail.partial tail.truncated) tail.lines)
          ((tail.start + 1) % line_limit)
          tail.count
        ≡ drop 1 (lines_from tail.lines tail.start tail.count)
          ++ (shown encoding tail.partial tail.truncated ∷ [])
  commit_full tail r h = full_row encoding tail.lines _ tail.start tail.count h r.start

  length-kept :
      (tail : Tail) (x : Text)
      → length (lines_from tail.lines tail.start tail.count ++ (x ∷ [])) ≡ tail.count + 1
  length-kept tail x =
      length-append _ (x ∷ [])
      ∙ ap (λ n. n + 1) (length-lines_from tail.lines tail.start tail.count)

  -- The end of a line, in the ring and in the log.
  pub log_of-commit_partial :
      (tail : Tail)
      → IsRing tail
      → log_of (commit_partial encoding tail) ≡ end_line encoding (log_of tail)
  unfolding commit_partial
  log_of-commit_partial tail r =
      if_cases (λ s. log_of s ≡ end_line encoding (log_of tail)) (tail.count == line_limit)
        (λ t. ap ended (commit_full tail r (eq_of_== _ _ t) ∙ sym (full (eq_of_== _ _ t))))
        (λ t. ap ended (
          commit_filling tail r (omega (arith, r.count, ne_of_== _ _ t))
          ∙ sym (filling (ne_of_== _ _ t))))
    where
      ended : List Text → Log
      ended l = record { kept = l; partial = []; truncated = false }

      line : Text
      line = shown encoding tail.partial tail.truncated

      kept : List Text
      kept = lines_from tail.lines tail.start tail.count

      full :
          tail.count ≡ line_limit
          → keep_last line_limit (kept ++ (line ∷ [])) ≡ drop 1 kept ++ (line ∷ [])
      full e =
          ap (λ n. drop n (kept ++ (line ∷ []))) (one e)
          ∙ drop-append kept (line ∷ []) 1
              (omega (arith, length-lines_from tail.lines tail.start tail.count, e))
        where
          one : tail.count ≡ line_limit → length (kept ++ (line ∷ [])) - line_limit ≡ 1
          one e = omega (arith, length-kept tail line, e)

      filling :
          tail.count ≢ line_limit → keep_last line_limit (kept ++ (line ∷ [])) ≡ kept ++ (line ∷ [])
      filling ne = ap (λ n. drop n (kept ++ (line ∷ []))) none_over
        where
          none_over : length (kept ++ (line ∷ [])) - line_limit ≡ 0
          none_over = omega (arith, length-kept tail line, ne, r.count)

  pub commit_partial-IsRing : (tail : Tail) → IsRing tail → IsRing (commit_partial encoding tail)
  unfolding commit_partial
  commit_partial-IsRing tail r =
      if_cases IsRing (tail.count == line_limit)
        (λ t. record {
          start = omega arith;
          count = r.count;
          filling = λ h. absurd (omega (arith, eq_of_== tail.count line_limit t));
          partial = omega arith;
        })
        (λ t. record {
          start = r.start;
          count = omega (arith, ne_of_== tail.count line_limit t, r.count);
          filling = λ h. r.filling (omega arith);
          partial = omega arith;
        })
