-- ===== src/Tui/Tail/Write.antt =====
-- `Write` on the ring is `Write` on the log without it.
use atum.Base.{
  ◌+◌, ◌-◌, ◌≤◌, Bool, true, false, ◌&&◌, ◌||◌, List, [], ◌∷◌, ◌++◌, Text, length, length-append,
  take, ◌==◌, ltb, if_cases, take-append, take_all, length-take, eq_of_==, ◌≡◌, refl, sym, ◌∙◌, ap,
  ap₂, arith, append-nil,
}
use atum.Tui.Tail.{Tail, Encoding, byte_limit, append_partial, commit_partial, write_from, write}
use atum.Tui.Tail.Refine.{
  IsRing, lines_from, Log, log_of, end_line, add_bytes, log_from, log_of-commit_partial,
  commit_partial-IsRing,
}

module _ (encoding : Encoding) where
  -- Bytes of a line, in the ring and in the log.
  appended :
      (input : Text) (tail : Tail)
      → IsRing tail
      → take byte_limit (tail.partial ++ input)
        ≡ tail.partial ++ take (byte_limit - length tail.partial) input
  appended input tail r = take-append tail.partial input byte_limit r.partial

  log_of-append_partial :
      (input : Text) (tail : Tail)
      → IsRing tail
      → log_of (append_partial encoding input tail) ≡ add_bytes encoding input (log_of tail)
  unfolding append_partial
  log_of-append_partial input tail r =
      if_cases Same ((byte_limit - length tail.partial) == 0)
        (λ t.
          if_cases Same tail.truncated
            (λ x. same tail.partial tail.truncated (whole t) (cut_eq t x))
            (λ x. same tail.partial true (whole t) (uncut_eq t)))
        (λ t.
          if_cases Same (ltb (byte_limit - length tail.partial) (length input))
            (λ x. same _ true (sym (appended input tail r)) (over_eq x))
            (λ x.
              same _ tail.truncated
                (sym
                  (appended input tail r ∙ ap (λ l. tail.partial ++ l) (take_all input _ (fits x))))
                (fits_eq t x)))
    where
      kept : List Text
      kept = lines_from tail.lines tail.start tail.count

      Same : Tail → Type 0
      Same s = log_of s ≡ add_bytes encoding input (log_of tail)

      same :
          (p : Text) (b : Bool)
          → p ≡ take byte_limit (tail.partial ++ input)
          → b ≡ (
              tail.truncated
              || length tail.partial == byte_limit
              || ltb byte_limit (length tail.partial + length input))
          → ◌≡◌ {A = Log}
              (record { kept = kept; partial = p; truncated = b })
              (add_bytes encoding input (log_of tail))
      same p b e f = ap₂ (λ p b. record { kept = kept; partial = p; truncated = b }) e f

      test : Bool
      test =
          tail.truncated
          || length tail.partial == byte_limit
          || ltb byte_limit (length tail.partial + length input)

      whole :
          ((byte_limit - length tail.partial) == 0) ≡ true
          → tail.partial ≡ take byte_limit (tail.partial ++ input)
      whole t = sym (
          appended input tail r
          ∙ ap (λ n. tail.partial ++ take n input) (eq_of_== (byte_limit - length tail.partial) 0 t)
          ∙ append-nil tail.partial)

      cut_eq :
          ((byte_limit - length tail.partial) == 0) ≡ true
          → tail.truncated ≡ true
          → tail.truncated ≡ test
      cut_eq t x = ground (arith, r.partial, t, x)

      uncut_eq : ((byte_limit - length tail.partial) == 0) ≡ true → true ≡ test
      uncut_eq t = ground (arith, r.partial, t)

      over_eq : ltb (byte_limit - length tail.partial) (length input) ≡ true → true ≡ test
      over_eq x = ground (arith, r.partial, x)

      fits :
          ltb (byte_limit - length tail.partial) (length input) ≡ false
          → length input ≤ byte_limit - length tail.partial
      fits x = ground (arith, x)

      fits_eq :
          ((byte_limit - length tail.partial) == 0) ≡ false
          → ltb (byte_limit - length tail.partial) (length input) ≡ false
          → tail.truncated ≡ test
      fits_eq t x = ground (arith, r.partial, t, x)

  append_partial-IsRing :
      (input : Text) (tail : Tail) → IsRing tail → IsRing (append_partial encoding input tail)
  unfolding append_partial
  append_partial-IsRing input tail r =
      if_cases IsRing ((byte_limit - length tail.partial) == 0)
        (λ _.
          if_cases IsRing tail.truncated (λ _. r)
            (λ _. record {
              start = r.start;
              count = r.count;
              filling = r.filling;
              partial = r.partial;
            }))
        (λ _.
          if_cases IsRing (ltb (byte_limit - length tail.partial) (length input))
            (λ _. record {
              start = r.start;
              count = r.count;
              filling = r.filling;
              partial = omega (
                arith,
                length-append tail.partial (take (byte_limit - length tail.partial) input),
                length-take (byte_limit - length tail.partial) input,
                r.partial,
              );
            })
            (λ x. record {
              start = r.start;
              count = r.count;
              filling = r.filling;
              partial = ground (arith, length-append tail.partial input, r.partial, x);
            }))

  -- A ring that shows a log.
  Shows : Log → Tail → Type 0
  Shows log tail = IsRing tail × (log_of tail ≡ log)

  append-Shows :
      (input : Text) (tail : Tail) (log : Log)
      → Shows log tail
      → Shows (add_bytes encoding input log) (append_partial encoding input tail)
  unfolding Shows
  append-Shows input tail log s = (
    append_partial-IsRing input tail s.0,
    log_of-append_partial input tail s.0 ∙ ap (add_bytes encoding input) s.1,
  )

  commit-Shows :
      (tail : Tail) (log : Log)
      → Shows log tail
      → Shows (end_line encoding log) (commit_partial encoding tail)
  unfolding Shows
  commit-Shows tail log s = (
    commit_partial-IsRing encoding tail s.0,
    log_of-commit_partial encoding tail s.0 ∙ ap (end_line encoding) s.1,
  )

  both-Shows :
      (b : Bool) (x y : Log) (u v : Tail)
      → Shows x u
      → Shows y v
      → Shows (elim b [ true ↦ x | false ↦ y ]) (elim b [ true ↦ u | false ↦ v ])
  both-Shows true x y u v h k = h
  both-Shows false x y u v h k = k

  write_from-Shows :
      (after_return : Bool) (part input : Text) (tail : Tail) (log : Log)
      → Shows log tail
      → Shows
          (log_from encoding after_return part input log)
          (write_from encoding after_return part input tail)
  unfolding write_from log_from
  write_from-Shows after_return [] [] tail log s = s
  write_from-Shows after_return (p ∷ part) [] tail log s = append-Shows (p ∷ part) tail log s
  write_from-Shows after_return part (c ∷ input) tail log s =
      both-Shows (after_return && c == 10) _ _ _ _ (write_from-Shows false part input tail log s) (
        both-Shows (c == 10 || c == 13) _ _ _ _
          (write_from-Shows (c == 13) [] input
            (commit_partial encoding (append_partial encoding part tail))
            (end_line encoding (add_bytes encoding part log))
            (commit-Shows (append_partial encoding part tail) (add_bytes encoding part log)
              (append-Shows part tail log s)))
          (write_from-Shows false (part ++ (c ∷ [])) input tail log s))

  -- What is written to the ring shows as the last lines of the log that has no ring: for any bytes and
  -- any ring whose indices are in range, and these stay in range.
  pub write-log_from :
      (input : Text) (tail : Tail)
      → IsRing tail
      → IsRing (write encoding input tail)
        × (log_of (write encoding input tail) ≡ log_from encoding false [] input (log_of tail))
  unfolding write Shows
  write-log_from input tail r = write_from-Shows false [] input tail (log_of tail) (r, refl)
