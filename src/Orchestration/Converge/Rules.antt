-- ===== src/Orchestration/Converge/Rules.antt =====
-- The rules by which the convergence of cli/orchestration is reasoned about: what holds after a value,
-- and what after an error. A panic has no proof.
use atum.Base.{
  Bool, true, false, Option, none, some, List, [], ◌∷◌, Text, ◌≡◌, ◌≢◌, refl, sym, subst,
  some_injective,
}
use atum.Orchestration.{Error, Result, ok, err, panic, or_error, or_panic, refuse}
use atum.Orchestration.Outside.{Call, read, hashed, connected, waited, played, Run, M, lift, after}

-- An answer after which the code goes on.
abbrev pub IsGood : Call → Type 0
IsGood (read answer) = answer ≢ none
IsGood (hashed answer) = answer ≢ none
IsGood (connected good) = good ≡ true
IsGood (waited _ good) = good ≡ true
IsGood (played _ _ good) = good ≡ true

abbrev pub IsClear : List Call → Type 0
IsClear [] = Unit {0}
IsClear (e ∷ log) = IsGood e

-- What has to come right before a playbook: the cluster is healthy, or its machines are reachable.
abbrev pub IsGate : List Call → Type 0
IsGate (waited _ good ∷ log) = good ≡ true
IsGate (connected good ∷ log) = good ≡ true
IsGate _ = ⊥

abbrev pub Precedes : List Call → Call → Type 0
Precedes log (played _ _ _) = IsGate log
Precedes log _ = IsClear log

-- The latest first: nothing comes after a bad answer, and every playbook right after its gate.
abbrev pub IsOrderly : List Call → Type 0
IsOrderly [] = Unit {0}
IsOrderly (e ∷ log) = Precedes log e × IsOrderly log

-- An orderly log whose last answer was good.
abbrev pub IsFine : List Call → Type 0
IsFine log = IsClear log × IsOrderly log

module _ {W : Type 0} where
  abbrev pub Holds : {A : Type 0} → (A → Run W → Type 0) → Result A × Run W → Type 0
  Holds P (ok a, s) = P a s
  Holds P (err e, s) = IsOrderly s.log
  Holds P (panic, s) = ⊥

  pub bind :
      {A B : Type 0} (Q : A → Run W → Type 0) (P : B → Run W → Type 0) (x : Result A × Run W)
      (f : A → M W B)
      → Holds Q x
      → ((a : A) (s : Run W) → Q a s → Holds P (f a s))
      → Holds P (after f x)
  bind Q P (ok a, s) f h k = k a s h
  bind Q P (err e, s) f h k = h
  bind Q P (panic, s) f h k = absurd h

  pub weaken :
      {A : Type 0} (Q P : A → Run W → Type 0) (x : Result A × Run W)
      → Holds Q x
      → ((a : A) (s : Run W) → Q a s → P a s)
      → Holds P x
  weaken Q P (ok a, s) h k = k a s h
  weaken Q P (err e, s) h k = h
  weaken Q P (panic, s) h k = h

  -- The rules for what asks nothing, and the state stays.
  pub bind-refuse :
      {B : Type 0} (P : B → Run W → Type 0) (b : Bool) (e : Error) (s : Run W) (m : M W B)
      → IsOrderly s.log
      → (b ≡ false → Holds P (m s))
      → Holds P (after (λ _. m) (lift (refuse b e) s))
  bind-refuse P true e s m orderly k = orderly
  bind-refuse P false e s m orderly k = k refl

  pub bind-or_error :
      {A B : Type 0} (P : B → Run W → Type 0) (e : Error) (o : Option A) (s : Run W) (f : A → M W B)
      → IsOrderly s.log
      → ((a : A) → o ≡ some a → Holds P (f a s))
      → Holds P (after f (lift (or_error e o) s))
  bind-or_error P e none s f orderly k = orderly
  bind-or_error P e (some a) s f orderly k = k a refl

  pub bind-or_panic :
      {A B : Type 0} (P : B → Run W → Type 0) (o : Option A) (a : A) (s : Run W) (f : A → M W B)
      → o ≡ some a
      → Holds P (f a s)
      → Holds P (after f (lift (or_panic o) s))
  bind-or_panic P none a s f h k = cc
  bind-or_panic P (some b) a s f h k = subst (λ x. Holds P (f x s)) (some_injective a b (sym h)) k

  -- A test that returns an error or nothing.
  pub bind-lift :
      {B : Type 0} (P : B → Run W → Type 0) (r : Result (Unit {0})) (s : Run W) (m : M W B)
      → IsOrderly s.log
      → r ≢ panic
      → (r ≡ ok tt → Holds P (m s))
      → Holds P (after (λ _. m) (lift r s))
  bind-lift P (ok tt) s m orderly safe k = k refl
  bind-lift P (err e) s m orderly safe k = orderly
  bind-lift P panic s m orderly safe k = absurd (safe refl)

  -- A rule that is stated from the log of a state, for a log that is known.
  pub at_log :
      {A : Type 0} (Q : List Call → A → Run W → Type 0) (x : Result A × Run W) (s : Run W)
      (log : List Call)
      → s.log ≡ log
      → (IsFine s.log → Holds (Q s.log) x)
      → IsFine log
      → Holds (Q log) x
  at_log Q x s log at h = subst (λ l. IsFine l → Holds (Q l) x) at h

pub IsFine-waited : (exact : Text) (log : List Call) → IsFine log → IsFine (waited exact true ∷ log)
IsFine-waited exact log fine = (refl, fine)

pub IsFine-connected : (log : List Call) → IsFine log → IsFine (connected true ∷ log)
IsFine-connected log fine = (refl, fine)

pub IsFine-hashed : (sha : Text) (log : List Call) → IsFine log → IsFine (hashed (some sha) ∷ log)
IsFine-hashed sha log fine = (λ h. cc h, fine)

pub IsFine-read : (raw : Text) (log : List Call) → IsFine log → IsFine (read (some raw) ∷ log)
IsFine-read raw log fine = (λ h. cc h, fine)

pub IsFine-played :
    (playbook kubernetes : Text) (log : List Call)
    → IsGate log
    → IsFine log
    → IsFine (played playbook kubernetes true ∷ log)
IsFine-played playbook kubernetes log gate fine = (refl, (gate, fine.1))
