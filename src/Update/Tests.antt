-- ===== src/Update/Tests.antt =====
-- Runs of the transaction code, on two files of which one changes and one goes.
use atum.Base.{
  ℕ, zero, suc, subst, if◌then◌else◌, Bool, true, false, Option, none, some, List, [], ◌∷◌, ◌++◌,
  Text, text, str_eq, take, replicate, ◌≡◌, refl, map,
}
use mathlib.Core.Option.{some-injective}
use atum.Fssecure.{relative}
use atum.Fssecure.Normal.{IsNormal, relative-relative}
use atum.Update.Transaction.Build.{Builds, builder-Builds}
use atum.Update.Disk.{Record, Node, regular, absent, Disk, World, Outcome, good, bad, crash, ok}
use atum.Update.Version.{Env, version_of, same, valid_hex_sha256}
use atum.Update.Journal.{
  journal_problem, journal_of, prepared, committed, valid_transaction_id, check_records, mem_path,
  valid_record, valid_journal_material,
}
use atum.Update.Recover.{recover_transactions}
use atum.Update.Transaction.{
  valid_managed, Managed, Change, Transaction, Added, added, rejected, new_transaction, add_file,
  add_mode, delete, changed_files, find, insert,
}
use atum.Update.Transaction.WellFormed.{IsWellFormed, All, AreDistinct, IsNew}
use atum.Update.Commit.{empty_entry, commit, record_of}
use atum.Update.Commit.AllOrNothing.{
  commit_returns, commit-Installed, commit-Recoverable, commit-recover_transactions,
}
use atum.Update.Ends.{NoBad}
use atum.Update.Encode.{is_utf8}
use atum.Update.Commit.Written.{HaveUtf8}
use atum.Update.Recover.Settled.{Recoverable, Settled, Installed}
use atum.Update.Recover.Restart.{recover_transactions-Recoverable, recover_transactions-settles}
use atum.Update.Commit.Verify.{Matches, Nth}

-- A hash that tells short contents apart.
abbrev test_hash : Text → Text
test_hash b = take 64 (b ++ replicate 64 b'0')

abbrev test_env : Env
test_env = record { hash = test_hash; journal_size = λ _. 100; directory_digest = λ _ _. none }

abbrev of_bytes : Text → Managed
of_bytes b = record {
  version = record { exists = true; mode = 420; digest = test_hash b };
  bytes = none;
}

abbrev test_files : Text → Option Node
test_files p =
    if str_eq p (text "a")
    then some (regular 420 (text "1"))
    else if str_eq p (text "d/b")
    then some (regular 420 (text "2"))
    else none

abbrev or_empty : Added → Transaction
or_empty (added t) = t
or_empty (rejected _) = new_transaction

first : version_of test_env (test_files (text "a")) ≡ some (of_bytes (text "1")).version
unfolding str_eq
first = refl

second : version_of test_env (test_files (text "d/b")) ≡ some (of_bytes (text "2")).version
unfolding str_eq
second = refl

abbrev test_name : Text
test_name = text "0123456789abcdef01234567"

abbrev test_disk : Disk
test_disk = record { files = test_files; present = false; entry = empty_entry test_name }

abbrev test_world : List Outcome → World
test_world s = record { script = s; sweep = []; disk = test_disk }

name_valid : valid_transaction_id test_name ≡ true
unfolding valid_transaction_id
name_valid = refl

-- `a` is written and `d/b` deleted.
abbrev test_transaction : Transaction
test_transaction = record {
  files =
      (
        text "a",
        record {
          expected = of_bytes (text "1");
          candidate = record (of_bytes (text "3")) { bytes = some (text "3") };
        },
      )
      ∷ (
        text "d/b",
        record {
          expected = of_bytes (text "2");
          candidate = record { version = absent; bytes = none };
        },
      )
      ∷ [];
  directories = [];
}

-- It is what `Add` and `Delete` make.
test_added :
    delete test_env
      (or_empty (add_file test_env new_transaction (text "./a") (text "3") (of_bytes (text "1"))))
      (text "d/x/../b")
      (of_bytes (text "2"))
    ≡ added test_transaction
unfolding add_file delete relative str_eq find valid_hex_sha256 insert
test_added = refl

test_IsWellFormed : IsWellFormed test_env test_transaction.files
unfolding All AreDistinct IsNew relative str_eq valid_hex_sha256 valid_managed
test_IsWellFormed = record {
  sound = ((refl, (refl, (refl, λ _. refl))), ((refl, (refl, (refl, λ x. cc (x)))), tt));
  distinct = (((λ e. cc (e)), tt), (tt, tt));
}

test_Matches : Matches test_env test_files test_transaction
test_Matches = record { files = expected; directories = λ j e a. cc (a) }
  where
    Expected : Text × Change → Type 0
    Expected e = version_of test_env (test_files e.0) ≡ some e.1.expected.version

    expected : (j : ℕ) (e : Text × Change) → Nth test_transaction.files j e → Expected e
    expected zero e a = subst Expected (some-injective _ _ a) first
    expected (suc zero) e a = subst Expected (some-injective _ _ a) second
    expected (suc (suc j)) e a = cc (a)

abbrev test_after : List Outcome → World
test_after s = (commit test_env test_name test_transaction (test_world s)).1

abbrev test_records : List Record
test_records = map record_of (changed_files test_transaction.files)

test_HaveUtf8 : HaveUtf8 test_records
unfolding is_utf8 changed_files same str_eq
test_HaveUtf8 zero r a = subst (λ r. is_utf8 0 r.path ≡ true) (some-injective _ _ a) refl
test_HaveUtf8 (suc zero) r a = subst (λ r. is_utf8 0 r.path ≡ true) (some-injective _ _ a) refl
test_HaveUtf8 (suc (suc j)) r a = cc (a)

prepared_accepted : journal_problem test_env (journal_of prepared test_records) ≡ none
unfolding journal_problem check_records changed_files str_eq same mem_path valid_record
    valid_journal_material valid_hex_sha256 relative
prepared_accepted = refl

committed_accepted : journal_problem test_env (journal_of committed test_records) ≡ none
unfolding journal_problem check_records changed_files str_eq same mem_path valid_record
    valid_journal_material valid_hex_sha256 relative
committed_accepted = refl

-- A run without a failing call.
abbrev test_run :
    (w : World) × (commit test_env test_name test_transaction (test_world []) ≡ (ok tt, w))
    × (w.disk.present ≡ false)
    × Installed test_env test_records test_files w.disk
test_run =
    commit_returns test_env test_name test_transaction test_IsWellFormed name_valid (test_world [])
      refl refl test_Matches

commit_returns_example :
    (w : World) × (commit test_env test_name test_transaction (test_world []) ≡ (ok tt, w))
    × (w.disk.present ≡ false)
    × Installed test_env test_records test_files w.disk
commit_returns_example =
    commit_returns test_env test_name test_transaction test_IsWellFormed name_valid (test_world [])
      refl refl test_Matches

commit-Installed_example :
    (test_run.0.disk.present ≡ false) × Installed test_env test_records test_files test_run.0.disk
commit-Installed_example =
    commit-Installed test_env test_name test_transaction test_IsWellFormed name_valid
      (test_world []) refl test_run.0 test_run.1

-- Its first call fails.
abbrev unlucky : World
unlucky = test_world (good ∷ bad ∷ [])

-- It dies after thirty calls.
abbrev interrupted_world : World
interrupted_world = test_world (replicate 30 good ++ (crash ∷ []))

no_bad : NoBad interrupted_world.script
unfolding NoBad
no_bad = tt

-- The disk that it leaves.
abbrev restarted : List Outcome → World
restarted s = record {
  script = s;
  sweep = [];
  disk = (commit test_env test_name test_transaction interrupted_world).1.disk;
}

commit-recover_transactions_example :
    (b : Bool) × (w : World) × (recover_transactions test_env (restarted []) ≡ (ok b, w))
    × (w.disk.present ≡ false)
    × Settled test_env test_records test_files w.disk
commit-recover_transactions_example =
    commit-recover_transactions test_env test_name test_transaction test_IsWellFormed name_valid
      interrupted_world refl no_bad test_HaveUtf8 test_Matches prepared_accepted committed_accepted
      (restarted []) refl refl

abbrev test_recoverable :
    (s : List Outcome) → Recoverable test_env test_records test_files (restarted s).disk
test_recoverable s =
    commit-Recoverable test_env test_name test_transaction test_IsWellFormed name_valid
      interrupted_world refl no_bad test_HaveUtf8 test_Matches

recover_transactions-Recoverable_example :
    Recoverable test_env test_records test_files
      (recover_transactions test_env (restarted (good ∷ good ∷ good ∷ bad ∷ []))).1.disk
recover_transactions-Recoverable_example =
    recover_transactions-Recoverable test_env test_records test_files
      (restarted (good ∷ good ∷ good ∷ bad ∷ [])) (test_recoverable [])

recover_transactions-settles_example :
    (b : Bool) × (w : World) × (recover_transactions test_env (restarted []) ≡ (ok b, w))
    × (w.disk.present ≡ false)
    × Settled test_env test_records test_files w.disk
recover_transactions-settles_example =
    recover_transactions-settles test_env test_records test_files (restarted []) refl
      (test_recoverable []) prepared_accepted committed_accepted

-- Building and normal forms.
new-IsWellFormed : IsWellFormed test_env new_transaction.files
unfolding All AreDistinct
new-IsWellFormed = record { sound = tt; distinct = tt }

builder-Builds_example :
    ((bytes : Text)
      → Builds test_env
          (add_file test_env new_transaction (text "./a") bytes (of_bytes (text "1"))))
    × ((bytes : Text) (is_regular : Bool) (perm : ℕ)
        → Builds test_env (
            add_mode test_env new_transaction
              (text "./a")
              bytes
              is_regular
              perm
              (of_bytes (text "1"))))
    × Builds test_env (delete test_env new_transaction (text "./a") (of_bytes (text "1")))
builder-Builds_example =
    builder-Builds test_env new_transaction (text "./a") (of_bytes (text "1")) new-IsWellFormed

test_relative : relative (text "d/x/../b") ≡ some (text "d/b")
unfolding relative str_eq
test_relative = refl

relative-relative_example : IsNormal (text "d/b") × (relative (text "d/b") ≡ some (text "d/b"))
relative-relative_example = relative-relative (text "d/x/../b") (text "d/b") test_relative
