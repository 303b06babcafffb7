-- ===== src/Ladder/Canonical/Current.antt =====
-- What `canonicalSemanticVersions` of cli/update/version.go keeps of the current version.
use atum.Base.{
  ℕ, zero, suc, ◌≤◌, Bool, true, false, Option, none, some, some_injective, List, [], ◌∷◌, Text,
  str_eq, str_eq_refl, str_eq→eq, length, if◌then◌else◌, ◌≡◌, refl, sym, ap, subst, ◌∙◌, ◌⊎◌, inl,
  inr, if_cases, Option-cases, arith,
}
use atum.Ladder.{Semver, IsSemver}
use atum.Ladder.Validate.{parse_trimmed}
use atum.Ladder.Canonical.{
  bad_current, bad_item, Versions, canonical, invalid, in_run, run_of, after_run, has_same_mark,
  chosen_of, with_choice, canonical_from, canonical_semantic_versions,
}

module _ {A V C : Type 0} (lib : Semver V C) (version_of : A → Text) where
  -- An item of the list has the version.
  abbrev pub Has : Text → List A → Type 0
  Has current [] = ⊥
  Has current (x ∷ xs) = (version_of x ≡ current) ⊎ Has current xs

  split_step :
      (current : Text) (b : Bool) (x : A) (xs run after : List A)
      → (Has current xs → Has current run ⊎ Has current after)
      → Has current (x ∷ xs)
      → Has current (if b then x ∷ run else []) ⊎ Has current (if b then after else x ∷ xs)
  split_step current true x xs run after k (inl e) = inl (inl e)
  split_step current true x xs run after k (inr h) = elim (k h) [
    | inl r ↦ inl (inr r)
    | inr a ↦ inr a
  ]
  split_step current false x xs run after k h = inr h

  run_of-or_after_run :
      (current : Text) (v : V) (xs : List A)
      → Has current xs
      → Has current (run_of lib version_of v xs) ⊎ Has current (after_run lib version_of v xs)
  unfolding run_of after_run
  run_of-or_after_run current v [] h = absurd h
  run_of-or_after_run current v (x ∷ xs) h =
      split_step current (in_run lib version_of v (parse_trimmed lib (version_of x))) x xs _ _
        (λ k. run_of-or_after_run current v xs k) h

  length-after_run : (v : V) (xs : List A) → length (after_run lib version_of v xs) ≤ length xs
  unfolding after_run
  length-after_run v [] = omega arith
  length-after_run v (x ∷ xs) = ground (arith, length-after_run v xs)

  -- The current version in a run is of the run's version.
  run_of-current :
      (current : Text) (v : V) (xs : List A)
      → Has current (run_of lib version_of v xs)
      → in_run lib version_of v (parse_trimmed lib current) ≡ true
  unfolding run_of
  run_of-current current v [] h = absurd h
  run_of-current current v (x ∷ xs) h =
      if_cases (λ ys. Has current ys → in_run lib version_of v (parse_trimmed lib current) ≡ true)
        (in_run lib version_of v (parse_trimmed lib (version_of x)))
        (λ e k. elim k [
          | inl d ↦ subst (λ s. in_run lib version_of v (parse_trimmed lib s) ≡ true) d e
          | inr r ↦ run_of-current current v xs r
        ])
        (λ _ k. absurd k) h

  chosen_of-current :
      (current : Text) (c : A) (xs : List A)
      → Has current xs
      → version_of (chosen_of lib version_of true current c xs) ≡ current
  unfolding chosen_of
  chosen_of-current current c [] h = absurd h
  chosen_of-current current c (x ∷ xs) (inl e) =
      if_cases (λ y. version_of y ≡ current) (str_eq (version_of x) current) (λ _. e)
        (λ no. absurd (
          true_false (
            sym (subst (λ t. str_eq (version_of x) t ≡ true) e (str_eq_refl (version_of x))) ∙ no)))
    where
      true_false : true ≡ false → ⊥
      true_false h = cc
  chosen_of-current current c (x ∷ xs) (inr h) =
      if_cases (λ y. version_of y ≡ current) (str_eq (version_of x) current)
        (λ e. str_eq→eq (version_of x) current e)
        (λ _.
          if_cases (λ y. version_of y ≡ current)
            (has_same_mark lib version_of (version_of x) current)
            (λ _. chosen_of-current current x xs h) (λ _. chosen_of-current current c xs h))

  abbrev items_of : Versions A → List A
  items_of (canonical xs) = xs
  items_of (invalid e) = []

  with_choice_lem :
      (c : A) (o : Versions A) (rs : List A)
      → with_choice lib version_of c o ≡ canonical rs
      → (ts : List A) × (o ≡ canonical ts) × (rs ≡ c ∷ ts)
  with_choice_lem c (canonical ts) rs e = (ts, refl, sym (ap items_of e))
  with_choice_lem c (invalid e) rs d = cc

  module _ (laws : IsSemver lib) where
    equal_sym : (u v : V) → lib.equal u v ≡ true → lib.equal v u ≡ true
    equal_sym u v e = laws.equal_iff v u (laws.equal_greater u v e) (laws.equal_less u v e)

    equal_refl : (v : V) → lib.equal v v ≡ true
    equal_refl v = laws.equal_iff v v (laws.irreflexive v) (laws.irreflexive v)

    -- A run that has the current version is of its version.
    is_current :
        (current : Text) (now v : V) (x : A) (xs : List A)
        → parse_trimmed lib current ≡ some now
        → parse_trimmed lib (version_of x) ≡ some v
        → Has current (x ∷ run_of lib version_of v xs)
        → lib.equal v now ≡ true
    unfolding in_run
    is_current current now v x xs p q (inl e) =
        subst (λ w. lib.equal v w ≡ true)
          (some_injective v now (sym q ∙ ap (parse_trimmed lib) e ∙ p)) (equal_refl v)
    is_current current now v x xs p q (inr h) =
        equal_sym now v
          (subst (λ o. in_run lib version_of v o ≡ true) p (run_of-current current v xs h))

    chosen :
        (current : Text) (now v : V) (x : A) (xs : List A)
        → parse_trimmed lib current ≡ some now
        → parse_trimmed lib (version_of x) ≡ some v
        → Has current (x ∷ run_of lib version_of v xs)
        → version_of
            (chosen_of lib version_of (lib.equal v now) current x (x ∷ run_of lib version_of v xs))
          ≡ current
    chosen current now v x xs p q h =
        subst
          (λ b.
            version_of (chosen_of lib version_of b current x (x ∷ run_of lib version_of v xs))
            ≡ current)
          (sym (is_current current now v x xs p q h))
          (chosen_of-current current x (x ∷ run_of lib version_of v xs) h)

    -- The current version is the choice of the first run, or it is kept from what comes after.
    first_or_rest :
        (current : Text) (now v : V) (x : A) (xs ts : List A)
        → parse_trimmed lib current ≡ some now
        → parse_trimmed lib (version_of x) ≡ some v
        → (Has current (after_run lib version_of v xs) → Has current ts)
        → Has current (x ∷ xs)
        → Has current (
            chosen_of lib version_of (lib.equal v now) current x (x ∷ run_of lib version_of v xs)
            ∷ ts)
    first_or_rest current now v x xs ts p q k (inl e) = inl (chosen current now v x xs p q (inl e))
    first_or_rest current now v x xs ts p q k (inr h) = elim (run_of-or_after_run current v xs h) [
      | inl r ↦ inl (chosen current now v x xs p q (inr r))
      | inr a ↦ inr (k a)
    ]

    abbrev after_parse : ℕ → V → Text → A → List A → Option V → Versions A
    after_parse fuel now current x xs o = elim o [
      | none ↦ invalid (bad_item (version_of x))
      | some version ↦
          with_choice lib version_of
            (chosen_of lib version_of (lib.equal version now) current x
              (x ∷ run_of lib version_of version xs))
            (canonical_from lib version_of fuel now current (after_run lib version_of version xs))
    ]

    canonical_from-current :
        (fuel : ℕ) (current : Text) (now : V) (items rs : List A)
        → parse_trimmed lib current ≡ some now
        → length items ≤ fuel
        → canonical_from lib version_of fuel now current items ≡ canonical rs
        → Has current items
        → Has current rs
    unfolding canonical_from
    canonical_from-current fuel current now [] rs p le e h = absurd h
    canonical_from-current zero current now (x ∷ xs) rs p le e h = absurd (omega arith)
    canonical_from-current (suc fuel) current now (x ∷ xs) rs p le e h =
        elim (Option-cases (parse_trimmed lib (version_of x))) [
          | inl d ↦ absurd (not_valid (sym (ap (after_parse fuel now current x xs) d) ∙ e))
          | inr (v, d) ↦
              goes_on v d
                (with_choice_lem _ _ rs (sym (ap (after_parse fuel now current x xs) d) ∙ e))
                (λ ts f a.
                  canonical_from-current fuel current now (after_run lib version_of v xs) ts p
                    (omega (arith, length-after_run v xs)) f a)
        ]
      where
        not_valid : invalid (bad_item (version_of x)) ≡ canonical rs → ⊥
        not_valid h = cc

        goes_on :
            (v : V)
            → parse_trimmed lib (version_of x) ≡ some v
            → (ts : List A) × (canonical_from lib version_of fuel now current
                  (after_run lib version_of v xs)
                ≡ canonical ts)
              × (rs
                  ≡ chosen_of lib version_of
                      (lib.equal v now)
                      current
                      x
                      (x ∷ run_of lib version_of v xs)
                    ∷ ts)
            → ((ts : List A)
                → canonical_from lib version_of fuel now current (after_run lib version_of v xs)
                  ≡ canonical ts
                → Has current (after_run lib version_of v xs)
                → Has current ts)
            → Has current rs
        goes_on v d (ts, f, g) k =
            subst (Has current) (sym g) (first_or_rest current now v x xs ts p d (k ts f) h)

    -- Where no version is refused, and an item has the current version to the letter, an item that
    -- is kept has it, whatever other spellings of that version stand beside it. The laws of the
    -- versions are those of the library.
    pub canonical_semantic_versions-current :
        (current : Text) (items rs : List A)
        → canonical_semantic_versions lib version_of current items ≡ canonical rs
        → Has current items
        → Has current rs
    unfolding canonical_semantic_versions
    canonical_semantic_versions-current current items rs e h =
        elim (Option-cases (parse_trimmed lib current)) [
          | inl d ↦ absurd (not_valid (sym (ap from d) ∙ e))
          | inr (now, d) ↦
              canonical_from-current (length items) current now items rs d (omega arith)
                (sym (ap from d) ∙ e) h
        ]
      where
        not_valid : invalid (bad_current current) ≡ canonical rs → ⊥
        not_valid h = cc

        from : Option V → Versions A
        from o = elim o [
          | none ↦ invalid (bad_current current)
          | some now ↦ canonical_from lib version_of (length items) now current items
        ]
