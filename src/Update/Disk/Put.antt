-- ===== src/Update/Disk/Put.antt =====
-- The laws of writes at a path and at a number.
use atum.Base.{ℕ, Text, str_eq, str_eq_refl, str_eq→eq, Bool-cases, ◌≡◌, ◌≢◌, inl, inr, arith}
use atum.Update.Disk.{put, put_at}

module _ {A : Type 0} where
  pub put_self : (f : Text → A) (p : Text) (v : A) → put f p v p ≡ v
  unfolding put
  put_self f p v = rw (str_eq_refl p)

  pub put_ne : (f : Text → A) (p q : Text) (v : A) → p ≢ q → put f p v q ≡ f q
  unfolding put
  put_ne f p q v h = elim (Bool-cases (str_eq q p)) [
    | inl e ↦ absurd (h (cc (str_eq→eq q p e)))
    | inr e ↦ rw e
  ]

  pub put_at_self : (f : ℕ → A) (i : ℕ) (v : A) → put_at f i v i ≡ v
  unfolding put_at
  put_at_self f i v = ground arith

  pub put_at_ne : (f : ℕ → A) (i j : ℕ) (v : A) → i ≢ j → put_at f i v j ≡ f j
  unfolding put_at
  put_at_ne f i j v h = ground arith
