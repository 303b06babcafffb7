-- ===== src/Update/Ends.antt =====
-- Reasoning on file system calls: how a call ends, and the rules for its sequences.
use atum.Base.{ℕ, zero, suc, List, [], ◌∷◌, ◌≡◌, refl, subst, Bool, true, false, if◌then◌else◌}
use atum.Update.Disk.{
  Disk, World, Outcome, good, bad, crash, Result, ok, err, died, M, after, Attempt, done, failed,
  caught, call, calls, outcome, Error,
}

-- The world satisfies `Q` on success, `E` on an error and `D` if the process died.
pub data Ends {A : Type 0} (Q : A → World → Type 0) (E : Error → World → Type 0)
    (D : World → Type 0) : Result A × World → Type 0 where
  on_ok : {a : A} {w : World} → Q a w → Ends Q E D (ok a, w)
  on_err : {e : Error} {w : World} → E e w → Ends Q E D (err e, w)
  on_died : {w : World} → D w → Ends Q E D (died, w)

-- Nothing fails any more.
abbrev pub Quiet : World → Type 0
Quiet w = w.script ≡ []

-- No call fails any more; no crash comes any more.
unfoldable pub NoBad : List Outcome → Type 0
NoBad [] = Unit
NoBad (good ∷ s) = NoBad s
NoBad (bad ∷ s) = ⊥
NoBad (crash ∷ s) = NoBad s

pub NoCrash : List Outcome → Type 0
NoCrash [] = Unit
NoCrash (good ∷ s) = NoCrash s
NoCrash (bad ∷ s) = NoCrash s
NoCrash (crash ∷ s) = ⊥

-- Where `C` holds no call will fail, where `K` holds no crash will come.
abbrev pub Fine : Type 0 → Type 0 → World → Type 0
Fine C K w = (C → NoBad w.script) × (K → NoCrash w.script)

-- After an error: `C` did not hold.
abbrev pub Failed : Type 0 → Type 0 → World → Type 0
Failed C K w = (C → ⊥) × (K → NoCrash w.script)

pub Quiet-Fine : {C K : Type 0} (w : World) → Quiet w → Fine C K w
unfolding NoBad NoCrash
Quiet-Fine w q = ((λ _. rw q tt), (λ _. rw q tt))

-- The disk satisfies `Q` on success, `G` after an error, which `C` rules out, and `H` after a crash,
-- which `K` rules out.
abbrev pub Leaves :
    {A : Type 0}
    → Type 0
    → Type 0
    → (A → Disk → Type 0)
    → (Disk → Type 0)
    → (Disk → Type 0)
    → Result A × World
    → Type 0
Leaves C K Q G H =
    Ends (λ a w. Fine C K w × Q a w.disk) (λ _ w. Failed C K w × G w.disk) (λ w. (K → ⊥) × H w.disk)

module _ {A B : Type 0} {Q : A → World → Type 0} {R : B → World → Type 0}
    {E : Error → World → Type 0} {D : World → Type 0} where
  -- The rule for a sequence.
  pub bind-Ends :
      (f : A → M B) (r : Result A × World)
      → Ends Q E D r
      → ((a : A) (w : World) → Q a w → Ends R E D (f a w))
      → Ends R E D (after f r)
  unfolding after
  bind-Ends f _ (on_ok h) k = k _ _ h
  bind-Ends f _ (on_err h) k = on_err h
  bind-Ends f _ (on_died h) k = on_died h

-- What is known of a caught error.
abbrev pub Caught :
    {A : Type 0} → (A → World → Type 0) → (Error → World → Type 0) → Attempt A → World → Type 0
Caught Q E (done a) w = Q a w
Caught Q E (failed e) w = E e w

module _ {A : Type 0} {Q : A → World → Type 0} {E : Error → World → Type 0}
    {D : World → Type 0} where
  pub try-Ends :
      {F : Error → World → Type 0} (r : Result A × World)
      → Ends Q E D r
      → Ends (Caught Q E) F D (caught r)
  unfolding caught
  try-Ends _ (on_ok h) = on_ok h
  try-Ends _ (on_err h) = on_ok h
  try-Ends _ (on_died h) = on_died h

  -- A weaker conclusion.
  pub weaken-Ends :
      {Q' : A → World → Type 0} {E' : Error → World → Type 0} {D' : World → Type 0}
      (r : Result A × World)
      → Ends Q E D r
      → ((a : A) (w : World) → Q a w → Q' a w)
      → ((e : Error) (w : World) → E e w → E' e w)
      → ((w : World) → D w → D' w)
      → Ends Q' E' D' r
  weaken-Ends _ (on_ok h) q e d = on_ok (q _ _ h)
  weaken-Ends _ (on_err h) q e d = on_err (e _ _ h)
  weaken-Ends _ (on_died h) q e d = on_died (d _ h)

module _ {A B : Type 0} {R : B → World → Type 0} {E : Error → World → Type 0}
    {D : World → Type 0} where
  pub ok_then :
      (f : A → M B) (a : A) (w : World) → Ends R E D (f a w) → Ends R E D (after f (ok a, w))
  unfolding after
  ok_then f a w h = h

  pub err_then : (f : A → M B) (e : Error) (w : World) → E e w → Ends R E D (after f (err e, w))
  unfolding after
  err_then f e w h = on_err h

module _ (C K : Type 0) (F G H : Disk → Type 0) where
  outcome-Leaves :
      (w : World) (s : List Outcome)
      → (C → NoBad s)
      → (K → NoCrash s)
      → Fine C K w
      → F w.disk
      → G w.disk
      → H w.disk
      → Leaves C K (λ _. F) G H (outcome w s)
  unfolding outcome NoBad NoCrash
  outcome-Leaves w [] b c q f g h = on_ok (q, f)
  outcome-Leaves w (good ∷ s) b c q f g h = on_ok ((b, c), f)
  outcome-Leaves w (bad ∷ s) b c q f g h = on_err ((b, c), g)
  outcome-Leaves w (crash ∷ s) b c q f g h = on_died (c, h)

  -- One call changes no disk.
  pub call-Leaves :
      (w : World) → Fine C K w → F w.disk → G w.disk → H w.disk → Leaves C K (λ _. F) G H (call w)
  unfolding call
  call-Leaves w q f g h = outcome-Leaves w w.script q.0 q.1 q f g h

-- The rule for a row of calls.
module _ (C K : Type 0) (F G H : Disk → Type 0) (pass : (d : Disk) → F d → G d × H d) where
  pub calls-Leaves :
      (n : ℕ) (w : World) → Fine C K w → F w.disk → Leaves C K (λ _. F) G H (calls n w)
  unfolding calls
  calls-Leaves zero w q f = on_ok (q, f)
  calls-Leaves (suc n) w q f =
      bind-Ends _ _ (call-Leaves C K F G H w q f (pass w.disk f).0 (pass w.disk f).1)
        (λ _ w' f'. calls-Leaves n w' f'.0 f'.1)

-- The rule for a test, which each branch is told.
module _ {A : Type 0} {Q : A → World → Type 0} {E : Error → World → Type 0}
    {D : World → Type 0} where
  pub if-Ends :
      (b : Bool) (m n : M A) (w : World)
      → (b ≡ true → Ends Q E D (m w))
      → (b ≡ false → Ends Q E D (n w))
      → Ends Q E D ((if b then m else n) w)
  if-Ends true m n w h k = h refl
  if-Ends false m n w h k = k refl

-- Two conclusions about one call.
module _ {A : Type 0} {Q Q' : A → World → Type 0} {E E' : Error → World → Type 0}
    {D D' : World → Type 0} where
  pub both-Ends :
      (r : Result A × World)
      → Ends Q E D r
      → Ends Q' E' D' r
      → Ends (λ a w. Q a w × Q' a w) (λ e w. E e w × E' e w) (λ w. D w × D' w) r
  both-Ends (ok a, w) (on_ok h) (on_ok k) = on_ok (h, k)
  both-Ends (err e, w) (on_err h) (on_err k) = on_err (h, k)
  both-Ends (died, w) (on_died h) (on_died k) = on_died (h, k)

-- What is known of a call that has ended.
module _ {A : Type 0} {Q : A → World → Type 0} {E : Error → World → Type 0}
    {D : World → Type 0} where
  ok_inv : {a : A} {w : World} → Ends Q E D (ok a, w) → Q a w
  ok_inv (on_ok h) = h

  err_inv : {e : Error} {w : World} → Ends Q E D (err e, w) → E e w
  err_inv (on_err h) = h

  pub ok_of : (r : Result A × World) (a : A) (w : World) → r ≡ (ok a, w) → Ends Q E D r → Q a w
  ok_of r a w e h = ok_inv (subst (Ends Q E D) e h)

  pub err_of :
      (r : Result A × World) (x : Error) (w : World) → r ≡ (err x, w) → Ends Q E D r → E x w
  err_of r x w e h = err_inv (subst (Ends Q E D) e h)

  -- Without errors and crashes a call returns.
  pub returned :
      (r : Result A × World)
      → Ends Q E D r
      → ((e : Error) (w : World) → E e w → ⊥)
      → ((w : World) → D w → ⊥)
      → (a : A) × (w : World) × (r ≡ (ok a, w)) × Q a w
  returned r (on_ok h) e d = (_, _, refl, h)
  returned r (on_err h) e d = absurd (e _ _ h)
  returned r (on_died h) e d = absurd (d _ h)

  -- A property of the disk that holds however a call ends.
  pub always :
      (P : Disk → Type 0) (r : Result A × World)
      → Ends Q E D r
      → ((a : A) (w : World) → Q a w → P w.disk)
      → ((e : Error) (w : World) → E e w → P w.disk)
      → ((w : World) → D w → P w.disk)
      → P r.1.disk
  always P r (on_ok h) q e d = q _ _ h
  always P r (on_err h) q e d = e _ _ h
  always P r (on_died h) q e d = d _ h
