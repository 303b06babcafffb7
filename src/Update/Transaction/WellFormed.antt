-- ===== src/Update/Transaction/WellFormed.antt =====
-- What a transaction's entries satisfy, and what a commit may rely on.
use atum.Base.{
  Bool-cases, ℕ, zero, suc, Bool, true, false, some, List, [], ◌∷◌, map, Text, str_eq_iff, ◌≡◌, ◌≢◌,
  refl, sym, ◌∙◌, ap, subst, inl, inr, arith, if◌then◌else◌,
}
use mathlib.Core.Option.{some-injective}
use atum.Fssecure.{relative}
use atum.Update.Disk.{absent, Record}
use atum.Update.Version.{Env, same}
use atum.Update.Recover.Undoable.{At, AreValid}
use atum.Update.Transaction.{Managed, Change, valid_managed, changed_files}
use atum.Update.Commit.{record_of}
use atum.Update.Commit.Stage.{IsFaithful, same_refl}
use atum.Update.Commit.Verify.{Nth}

-- No entry has the key.
unfoldable pub IsNew : {V : Type 0} → Text → List (Text × V) → Type 0
IsNew k [] = Unit
IsNew k (e ∷ m) = (k ≢ e.0) × IsNew k m

unfoldable pub AreDistinct : {V : Type 0} → List (Text × V) → Type 0
unfolding IsNew
AreDistinct [] = Unit
AreDistinct (e ∷ m) = IsNew e.0 m × AreDistinct m

unfoldable pub All : {A : Type 0} → (A → Type 0) → List A → Type 0
All P [] = Unit
All P (e ∷ m) = P e × All P m

module _ {A : Type 0} (P : A → Type 0) where
  pub All-Nth : (m : List A) (j : ℕ) (e : A) → All P m → Nth m j e → P e
  unfolding All
  All-Nth [] j e h n = cc (n)
  All-Nth (x ∷ m) zero e h n = subst P (some-injective _ _ n) h.0
  All-Nth (x ∷ m) (suc j) e h n = All-Nth m j e h.1 n

module _ {V : Type 0} where
  IsNew-Nth :
      (k : Text) (m : List (Text × V)) (j : ℕ) (e : Text × V) → IsNew k m → Nth m j e → k ≢ e.0
  unfolding IsNew
  IsNew-Nth k [] j e h n = cc (n)
  IsNew-Nth k (x ∷ m) zero e h n = subst (λ e. k ≢ e.0) (some-injective _ _ n) h.0
  IsNew-Nth k (x ∷ m) (suc j) e h n = IsNew-Nth k m j e h.1 n

  AreDistinct-Nth :
      (m : List (Text × V)) (i j : ℕ) (e f : Text × V)
      → AreDistinct m
      → Nth m i e
      → Nth m j f
      → e.0 ≡ f.0
      → i ≡ j
  unfolding AreDistinct
  AreDistinct-Nth [] i j e f d a b x = cc (a)
  AreDistinct-Nth (y ∷ m) zero zero e f d a b x = refl
  AreDistinct-Nth (y ∷ m) zero (suc j) e f d a b x =
      absurd (IsNew-Nth y.0 m j f d.0 b (ap (λ e. e.0) (some-injective _ _ a) ∙ x))
  AreDistinct-Nth (y ∷ m) (suc i) zero e f d a b x =
      absurd (IsNew-Nth y.0 m i e d.0 a (ap (λ e. e.0) (some-injective _ _ b) ∙ sym x))
  AreDistinct-Nth (y ∷ m) (suc i) (suc j) e f d a b x = ap suc (AreDistinct-Nth m i j e f d.1 a b x)

-- What both branches satisfy.
if_both : {A : Type 0} (P : A → Type 0) (b : Bool) {x y : A} → P x → P y → P (if b then x else y)
if_both P true h k = h
if_both P false h k = k

module _ (env : Env) where
  -- One entry: its path is clean, its versions are valid, and the bytes of the candidate are those
  -- of its digest.
  abbrev pub IsSound : Text × Change → Type 0
  IsSound (p, c) =
      (relative p ≡ some p)
      × ((valid_managed env c.expected ≡ true)
          × ((valid_managed env c.candidate ≡ true) × IsFaithful env c))

  pub record IsWellFormed (m : List (Text × Change)) : Type 0 where
    pub sound : All IsSound m
    pub distinct : AreDistinct m

  absent_of_valid :
      (m : Managed) → valid_managed env m ≡ true → m.version.exists ≡ false → m.version ≡ absent
  unfolding valid_managed
  absent_of_valid m v e = ground (arith, str_eq_iff m.version.digest [], v, e)

  -- The changed files are some of the files.
  changed_files-All :
      (P : Text × Change → Type 0) (m : List (Text × Change)) → All P m → All P (changed_files m)
  unfolding changed_files All
  changed_files-All P [] h = tt
  changed_files-All P ((p, c) ∷ m) h =
      if_both (All P) (same c.expected.version c.candidate.version) (changed_files-All P m h.1)
        (h.0, changed_files-All P m h.1)

  changed_files-IsNew :
      (k : Text) (m : List (Text × Change)) → IsNew k m → IsNew k (changed_files m)
  unfolding changed_files IsNew
  changed_files-IsNew k [] h = tt
  changed_files-IsNew k ((p, c) ∷ m) h =
      if_both (IsNew k) (same c.expected.version c.candidate.version) (changed_files-IsNew k m h.1)
        (h.0, changed_files-IsNew k m h.1)

  changed_files-AreDistinct :
      (m : List (Text × Change)) → AreDistinct m → AreDistinct (changed_files m)
  unfolding changed_files AreDistinct
  changed_files-AreDistinct [] h = tt
  changed_files-AreDistinct ((p, c) ∷ m) h =
      if_both AreDistinct (same c.expected.version c.candidate.version)
        (changed_files-AreDistinct m h.1)
        (changed_files-IsNew p m h.0, changed_files-AreDistinct m h.1)

  abbrev Differs : Text × Change → Type 0
  Differs e = same e.1.expected.version e.1.candidate.version ≡ false

  changed_files-Differs : (m : List (Text × Change)) → All Differs (changed_files m)
  unfolding changed_files All
  changed_files-Differs [] = tt
  changed_files-Differs ((p, c) ∷ m) =
      elim (Bool-cases (same c.expected.version c.candidate.version)) [
        | inl t ↦ rw t (changed_files-Differs m)
        | inr t ↦ rw t (t, changed_files-Differs m)
      ]

  Nth-All :
      (P : Text × Change → Type 0) (m : List (Text × Change))
      → ((j : ℕ) (e : Text × Change) → Nth m j e → P e)
      → All P m
  unfolding All
  Nth-All P [] h = tt
  Nth-All P (x ∷ m) h = (h 0 x refl, Nth-All P m (λ j. h (suc j)))

  pub Nth_changed :
      (P : Text × Change → Type 0) (m : List (Text × Change))
      → ((j : ℕ) (e : Text × Change) → Nth m j e → P e)
      → (j : ℕ) (e : Text × Change) → Nth (changed_files m) j e
      → P e
  Nth_changed P m h j e = All-Nth P (changed_files m) j e (changed_files-All P m (Nth-All P m h))

  -- A record of the list comes from an entry.
  pub entry_of :
      (l : List (Text × Change)) (j : ℕ) (r : Record)
      → At (map record_of l) j r
      → (e : Text × Change) × (Nth l j e × (record_of e ≡ r))
  entry_of [] j r a = cc (a)
  entry_of (x ∷ l) zero r a = (x, (refl, some-injective _ _ a))
  entry_of (x ∷ l) (suc j) r a = entry_of l j r a

  module _ (m : List (Text × Change)) (v : IsWellFormed m) where
    abbrev pub records : List Record
    records = map record_of (changed_files m)

    pub changed_IsSound : All IsSound (changed_files m)
    changed_IsSound = changed_files-All IsSound m v.sound

    pub of_entry :
        (P : Record → Type 0)
        → ((e : Text × Change) → IsSound e → Differs e → P (record_of e))
        → (j : ℕ) (r : Record) → At records j r
        → P r
    of_entry P f j r a =
        let (e, h) = entry_of (changed_files m) j r a in
        subst P h.1 (
          f e (All-Nth IsSound (changed_files m) j e changed_IsSound h.0)
            (All-Nth Differs (changed_files m) j e (changed_files-Differs m) h.0))

    distinct_records :
        (i j : ℕ) (r q : Record) → At records i r → At records j q → r.path ≡ q.path → i ≡ j
    distinct_records i j r q a b x =
        let (e, h) = entry_of (changed_files m) i r a in
        let (f, g) = entry_of (changed_files m) j q b in
        AreDistinct-Nth (changed_files m) i j e f (changed_files-AreDistinct m v.distinct) h.0 g.0
          (ap (λ r. r.path) h.1 ∙ x ∙ sym (ap (λ r. r.path) g.1))

    pub records-AreValid : AreValid records
    records-AreValid = record {
      clean = of_entry (λ r. relative r.path ≡ some r.path) (λ e s _. s.0);
      no_original =
          of_entry (λ r. r.original.exists ≡ false → r.original ≡ absent)
            (λ e s _. absent_of_valid e.1.expected s.1.0);
      no_candidate =
          of_entry (λ r. r.candidate.exists ≡ false → r.candidate ≡ absent)
            (λ e s _. absent_of_valid e.1.candidate s.1.1.0);
      distinct = distinct_records;
    }

    -- What is deleted was there.
    pub deleted_exists :
        (j : ℕ) (r : Record)
        → At records j r
        → r.candidate.exists ≡ false
        → r.original.exists ≡ true
    deleted_exists =
        of_entry (λ r. r.candidate.exists ≡ false → r.original.exists ≡ true)
          (λ e s d x. existed e s d x (e.1.expected.version.exists) refl)
      where
        existed :
            (e : Text × Change)
            → IsSound e
            → Differs e
            → e.1.candidate.version.exists ≡ false
            → (b : Bool) → e.1.expected.version.exists ≡ b
            → e.1.expected.version.exists ≡ true
        existed e s d x true y = y
        existed e s d x false y = cc (
          d,
          same_refl e.1.expected.version e.1.candidate.version (
              absent_of_valid e.1.expected s.1.0 y ∙ sym (absent_of_valid e.1.candidate s.1.1.0 x)),
        )
