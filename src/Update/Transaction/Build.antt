-- ===== src/Update/Transaction/Build.antt =====
-- `Add`, `AddMode` and `Delete` keep a transaction well formed.
use atum.Base.{
  ℕ, ◌==◌, Bool, true, not, ◌||◌, Option, none, some, List, [], ◌∷◌, Text, str_eq_iff,
  if◌then◌else◌, if_cases, ◌≡◌, ◌≢◌, refl, sym, arith,
}
use atum.Fssecure.{relative}
use atum.Fssecure.Normal.{relative-relative}
use atum.Update.Disk.{absent, duplicate, not_relative, invalid_version}
use atum.Update.Version.{Env}
use atum.Update.Transaction.{
  Managed, Change, Transaction, Added, added, rejected, without_data, valid_managed, find, insert,
  text_lt, add, candidate_of, add_file, add_mode, delete,
}
use atum.Update.Transaction.WellFormed.{IsNew, AreDistinct, All, IsSound, IsWellFormed}
use atum.Update.Commit.Stage.{IsFaithful}

module _ {V : Type 0} where
  find-IsNew : (k : Text) (m : List (Text × V)) → find k m ≡ none → IsNew k m
  unfolding find IsNew
  find-IsNew k [] h = tt
  find-IsNew k ((j, v) ∷ m) h = (differs, find-IsNew k m (ground (arith, h)))
    where
      differs : k ≢ j
      differs e = ground (arith, h, str_eq_iff k j, e)

  insert-All :
      (P : Text × V → Type 0) (k : Text) (v : V) (m : List (Text × V))
      → P (k, v)
      → All P m
      → All P (insert k v m)
  unfolding insert All
  insert-All P k v [] p a = (p, tt)
  insert-All P k v ((j, w) ∷ m) p a =
      if_cases (All P) (text_lt k j) (λ _. (p, a)) (λ _. (a.0, insert-All P k v m p a.1))

  insert-IsNew :
      (j k : Text) (v : V) (m : List (Text × V)) → j ≢ k → IsNew j m → IsNew j (insert k v m)
  unfolding insert IsNew
  insert-IsNew j k v [] n a = (n, tt)
  insert-IsNew j k v ((i, w) ∷ m) n a =
      if_cases (IsNew j) (text_lt k i) (λ _. (n, a)) (λ _. (a.0, insert-IsNew j k v m n a.1))

  insert-AreDistinct :
      (k : Text) (v : V) (m : List (Text × V))
      → IsNew k m
      → AreDistinct m
      → AreDistinct (insert k v m)
  unfolding insert IsNew AreDistinct
  insert-AreDistinct k v [] n d = (tt, tt)
  insert-AreDistinct k v ((j, w) ∷ m) n d =
      if_cases AreDistinct (text_lt k j) (λ _. (n, d))
        (λ _. (insert-IsNew j k v m (λ e. n.0 (sym e)) d.0, insert-AreDistinct k v m n.1 d.1))

module _ (env : Env) where
  -- What is added is well formed.
  abbrev pub Builds : Added → Type 0
  Builds (added t) = IsWellFormed env t.files
  Builds (rejected e) = Unit

  without_data-valid :
      (m : Managed) → valid_managed env m ≡ true → valid_managed env (without_data m) ≡ true
  unfolding valid_managed
  without_data-valid m h = ground (arith, h)

  add-Builds :
      (t : Transaction) (path : Text) (expected candidate : Managed)
      → IsFaithful env (record { expected = without_data expected; candidate = candidate })
      → IsWellFormed env t.files
      → Builds (add env t path expected candidate)
  unfolding add
  add-Builds t path expected candidate f w = at (relative path) refl
    where
      change : Change
      change = record { expected = without_data expected; candidate = candidate }

      in_place :
          (clean : Text) (o : Option Change)
          → relative path ≡ some clean
          → find clean t.files ≡ o
          → Builds (elim o [
            | some _ ↦ rejected (duplicate clean)
            | none ↦
                if not (valid_managed env expected) || not (valid_managed env candidate)
                then rejected (invalid_version clean)
                else added (record t { files = insert clean change t.files })
          ])
      in_place clean (some c) e g = tt
      in_place clean none e g =
          if_cases Builds (not (valid_managed env expected) || not (valid_managed env candidate))
            (λ _. tt)
            (λ h. record {
              sound =
                  insert-All (IsSound env) clean change t.files
                    (
                      (relative-relative path clean e).1,
                      (without_data-valid expected (ground (arith, h)), (ground (arith, h), f)),
                    )
                    w.sound;
              distinct =
                  insert-AreDistinct clean change t.files (find-IsNew clean t.files g) w.distinct;
            })

      at :
          (o : Option Text)
          → relative path ≡ o
          → Builds (elim o [
            | none ↦ rejected not_relative
            | some clean ↦ elim (find clean t.files) [
              | some _ ↦ rejected (duplicate clean)
              | none ↦
                  if not (valid_managed env expected) || not (valid_managed env candidate)
                  then rejected (invalid_version clean)
                  else added (record t { files = insert clean change t.files })
            ]
          ])
      at none e = tt
      at (some clean) e = in_place clean (find clean t.files) e refl

  candidate_of-IsFaithful :
      (mode : ℕ) (bytes : Text) (e : Managed)
      → IsFaithful env (record { expected = e; candidate = candidate_of env mode bytes })
  candidate_of-IsFaithful mode [] e x = refl
  candidate_of-IsFaithful mode (b ∷ bytes) e x = refl

  -- `Add`, `AddMode` and `Delete` keep a transaction well formed, whatever they are given: its
  -- paths are clean and distinct, its versions valid, and each candidate's digest is that of its
  -- bytes.
  pub builder-Builds :
      (t : Transaction) (path : Text) (expected : Managed)
      → IsWellFormed env t.files
      → ((bytes : Text) → Builds (add_file env t path bytes expected))
        × ((bytes : Text) (is_regular : Bool) (perm : ℕ)
            → Builds (add_mode env t path bytes is_regular perm expected))
        × Builds (delete env t path expected)
  unfolding add_file add_mode delete
  builder-Builds t path expected w = (
    (λ bytes.
        let mode = if expected.version.exists then expected.version.mode else 420 in
        add-Builds t path expected (candidate_of env mode bytes)
          (candidate_of-IsFaithful mode bytes (without_data expected)) w),
    (λ bytes is_regular perm.
        if_cases Builds (not is_regular || perm == 0) (λ _. tt)
          (λ _.
            add-Builds t path expected (candidate_of env perm bytes)
              (candidate_of-IsFaithful perm bytes (without_data expected)) w)),
    if_cases Builds (not expected.version.exists) (λ _. w)
        (λ _.
          add-Builds t path expected (record { version = absent; bytes = none }) (λ x. cc (x)) w),
  )
