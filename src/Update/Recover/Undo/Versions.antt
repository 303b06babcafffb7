-- ===== src/Update/Recover/Undo/Versions.antt =====
-- The tests of `recoverPreparedTransaction` on versions.
use atum.Base.{Bool, true, false, ◌&&◌, not, Option, some, ◌≡◌, arith, str_eq_iff}
use atum.Update.Disk.{Version, absent}
use atum.Update.Version.{present_as}

-- A version that exists with the wanted mode and digest is the wanted one, if that exists.
pub present_as→eq : (v u : Version) → u.exists ≡ true → present_as v u ≡ true → v ≡ u
unfolding present_as
present_as→eq v u e h = ground (arith, str_eq_iff v.digest u.digest)

pub present_as_refl : (v u : Version) → u.exists ≡ true → v ≡ u → present_as v u ≡ true
unfolding present_as
present_as_refl v u e h = ground (arith, str_eq_iff v.digest u.digest)

pub and_true : (a b : Bool) → a ≡ true → b ≡ true → (a && b) ≡ true
and_true a b p q = ground arith

pub some-absent :
    (o : Version) → ◌≡◌ {A = Option Version} (some absent) (some o) → o.exists ≡ true → ⊥
some-absent o e x = ground arith

-- The refusal to overwrite a file does not concern the candidate.
pub not_refused :
    (current candidate : Version)
    → current ≡ candidate
    → (not (candidate.exists && present_as current candidate)
          && not (not current.exists && not candidate.exists)
        ≡ false)
unfolding present_as
not_refused current candidate e = ground (arith, str_eq_iff current.digest candidate.digest)
