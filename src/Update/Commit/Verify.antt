-- ===== src/Update/Commit/Verify.antt =====
-- `Verify`: it passes where the managed files and directories are what the transaction expects.
use atum.Base.{
  ℕ, zero, suc, true, Option, none, some, List, [], ◌∷◌, Text, str_eq, str_eq_iff, get_elem?, ◌≡◌,
  refl, sym, ◌∙◌, ap, subst,
}
use mathlib.Core.Option.{some-injective}
use atum.Fssecure.{relative}
use atum.Update.Disk.{Node, Version, Disk, World, changed, changed_directory, raise}
use atum.Update.Version.{Env, version_of, same, snapshot}
use atum.Update.Version.Calls.{IsAt, snapshot-Leaves}
use atum.Update.Ends.{
  on_ok, on_err, Fine, Leaves, bind-Ends, ok_then, if-Ends, call-Leaves, weaken-Ends,
}
use atum.Update.Transaction.{Change, Transaction}
use atum.Update.Commit.{read_digest, verify_files, verify_directories, verify}
use atum.Update.Commit.Stage.{same→eq, same_refl}

-- The entries of a list, by their index.
abbrev pub Nth : {A : Type 0} → List A → ℕ → A → Type 0
Nth l j e = get_elem? l j ≡ some e

module _ (env : Env) (found : Text → Option Node) where
  abbrev Expected : Text × Change → Type 0
  Expected e = version_of env (found e.0) ≡ some e.1.expected.version

  -- The managed files and directories are what the transaction expects.
  pub record Matches (t : Transaction) : Type 0 where
    pub files : (j : ℕ) (e : Text × Change) → Nth t.files j e → Expected e
    pub directories :
        (j : ℕ) (e : Text × Text)
        → Nth t.directories j e
        → env.directory_digest found e.0 ≡ some e.1

  module _ (C K : Type 0) (F G H : Disk → Type 0)
      (pass : (d : Disk) → F d → (d.files ≡ found) × G d × H d) where
    verify_files-Leaves :
        (m : List (Text × Change)) (w : World)
        → ((j : ℕ) (e : Text × Change) → Nth m j e → relative e.0 ≡ some e.0)
        → (C → (j : ℕ) (e : Text × Change) → Nth m j e → Expected e)
        → Fine C K w
        → F w.disk
        → Leaves C K
            (λ _ d. F d × ((j : ℕ) (e : Text × Change) → Nth m j e → Expected e))
            G
            H
            (verify_files env m w)
    unfolding verify_files
    verify_files-Leaves [] w clean ok_if q f = on_ok (q, (f, λ j e a. cc (a)))
    verify_files-Leaves ((p, c) ∷ m) w clean ok_if q f = bind-Ends _ _ look (λ actual w1 f1.
        if-Ends (same actual c.expected.version) (verify_files env m) (raise (changed p)) w1
          (λ t.
            weaken-Ends _
              (verify_files-Leaves m w1 (λ j. clean (suc j)) (λ x j. ok_if x (suc j)) f1.0 f1.1.0)
              (λ _ w2 f2. (f2.0, (f2.1.0, all_of (expected w1 actual f1.1.0 f1.1.1 t) f2.1.1)))
              (λ _ _ x. x) (λ _ x. x))
          (λ t. on_err (
            (
              (λ x. cc (
                t,
                same_refl actual c.expected.version
                    (some-injective _ _ (sym f1.1.1 ∙ at_found w1 f1.1.0 (ok_if x 0 (p, c) refl))),
              )),
              f1.0.1,
            ),
            (pass w1.disk f1.1.0).1,
          )))
      where
        at_found : (w : World) → F w.disk → Expected (p, c) → IsAt env w.disk p c.expected.version
        at_found w f x = rw (pass w.disk f).0 x

        expected :
            (w : World) (actual : Version)
            → F w.disk
            → IsAt env w.disk p actual
            → same actual c.expected.version ≡ true
            → Expected (p, c)
        expected w actual f a t =
            ap (λ g. version_of env (g p)) (sym (pass w.disk f).0) ∙ a ∙ ap some (same→eq _ _ t)

        all_of :
            Expected (p, c)
            → ((j : ℕ) (e : Text × Change) → Nth m j e → Expected e)
            → (j : ℕ) (e : Text × Change) → Nth ((p, c) ∷ m) j e
            → Expected e
        all_of x rest zero e a = subst Expected (some-injective _ _ a) x
        all_of x rest (suc j) e a = rest j e a

        look : Leaves C K (λ v d. F d × IsAt env d p v) G H (snapshot env p w)
        look =
            weaken-Ends _
              (snapshot-Leaves env C K F F p w (clean 0 (p, c) refl) q
                (λ h x. cc (h, at_found w f (ok_if x 0 (p, c) refl))) f f)
              (λ v w1 x. (x.0, (x.1.0.0, x.1.1))) (λ _ w1 x. (x.0, (pass w1.disk x.1).1))
              (λ w1 x. (x.0, (pass w1.disk x.1).2))

    read_digest-Leaves :
        (o : Option Text) (expected : Text) (w : World)
        → (C → o ≡ some expected)
        → Fine C K w
        → F w.disk
        → Leaves C K (λ actual d. F d × (o ≡ some actual)) G H (read_digest env o w)
    read_digest-Leaves none expected w ok_if q f =
        on_err (((λ x. cc (ok_if x)), q.1), (pass w.disk f).1)
    read_digest-Leaves (some s) expected w ok_if q f = on_ok (q, (f, refl))

    abbrev SameDigest : Text × Text → Type 0
    SameDigest e = env.directory_digest found e.0 ≡ some e.1

    verify_directories-Leaves :
        (m : List (Text × Text)) (w : World)
        → (C → (j : ℕ) (e : Text × Text) → Nth m j e → SameDigest e)
        → Fine C K w
        → F w.disk
        → Leaves C K
            (λ _ d. F d × ((j : ℕ) (e : Text × Text) → Nth m j e → SameDigest e))
            G
            H
            (verify_directories env m w)
    unfolding verify_directories
    verify_directories-Leaves [] w ok_if q f = on_ok (q, (f, λ j e a. cc (a)))
    verify_directories-Leaves ((p, x) ∷ m) w ok_if q f =
        bind-Ends _ _ (call-Leaves C K F G H w q f (pass w.disk f).1 (pass w.disk f).2) (λ _ w1 f1.
          ok_then _ _ _ (
            bind-Ends _ _ (look w1 f1.0 f1.1) (λ actual w2 f2.
              if-Ends (str_eq actual x) (verify_directories env m) (raise (changed_directory p)) w2
                (λ t.
                  weaken-Ends _
                    (verify_directories-Leaves m w2 (λ c j. ok_if c (suc j)) f2.0 f2.1.0)
                    (λ _ w3 f3. (
                      f3.0,
                      (f3.1.0, all_of (f2.1.1 ∙ ap some ((str_eq_iff actual x).0 t)) f3.1.1),
                    ))
                    (λ _ _ x. x) (λ _ x. x))
                (λ t. on_err (
                  (
                    (λ c. cc (
                      t,
                      (str_eq_iff actual x).1
                          (some-injective _ _ (sym f2.1.1 ∙ ok_if c 0 (p, x) refl)),
                    )),
                    f2.0.1,
                  ),
                  (pass w2.disk f2.1.0).1,
                )))))
      where
        look :
            (w : World)
            → Fine C K w
            → F w.disk
            → Leaves C K
                (λ actual d. F d × (env.directory_digest found p ≡ some actual))
                G
                H
                (read_digest env (env.directory_digest w.disk.files p) w)
        look w q f =
            let same_digest = ap (λ g. env.directory_digest g p) (pass w.disk f).0 in
            weaken-Ends _
              (read_digest-Leaves (env.directory_digest w.disk.files p) x w
                (λ c. same_digest ∙ ok_if c 0 (p, x) refl) q f)
              (λ _ w1 y. (y.0, (y.1.0, sym same_digest ∙ y.1.1))) (λ _ _ y. y) (λ _ y. y)

        all_of :
            SameDigest (p, x)
            → ((j : ℕ) (e : Text × Text) → Nth m j e → SameDigest e)
            → (j : ℕ) (e : Text × Text) → Nth ((p, x) ∷ m) j e
            → SameDigest e
        all_of y rest zero e a = subst SameDigest (some-injective _ _ a) y
        all_of y rest (suc j) e a = rest j e a

    -- It changes nothing, and passes only where everything matches.
    pub verify-Leaves :
        (t : Transaction) (w : World)
        → ((j : ℕ) (e : Text × Change) → Nth t.files j e → relative e.0 ≡ some e.0)
        → (C → Matches t)
        → Fine C K w
        → F w.disk
        → Leaves C K (λ _ d. F d × Matches t) G H (verify env t w)
    unfolding verify
    verify-Leaves t w clean ok_if q f =
        bind-Ends _ _ (verify_files-Leaves t.files w clean (λ c. (ok_if c).files) q f) (λ _ w1 f1.
          weaken-Ends _
            (verify_directories-Leaves t.directories w1 (λ c. (ok_if c).directories) f1.0 f1.1.0)
            (λ _ w2 f2. (f2.0, (f2.1.0, record { files = f1.1.1; directories = f2.1.1 })))
            (λ _ _ x. x) (λ _ x. x))
