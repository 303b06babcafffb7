-- ===== src/Update/Transaction.antt =====
-- cli/update/transaction.go: `fileTransaction`, the set of files an update is about to change.
pub mod WellFormed
pub mod Build
use atum.Base.{
  ℕ, Bool, true, false, ◌&&◌, ◌||◌, not, Option, none, some, List, [], ◌∷◌, Text, str_eq, length,
  ◌==◌, ltb, if◌then◌else◌,
}
use mathlib.Core.Option
use atum.Fssecure.{relative}
use atum.Update.Disk.{
  Version, absent, Error, not_relative, duplicate, invalid_version, invalid_mode, empty_identity,
}
use atum.Update.Version.{valid_hex_sha256, same, Env}

-- `managedVersion`: a version with its bytes, which are nil where only the version is known.
pub record Managed : Type 0 where
  pub version : Version
  pub bytes : Option Text

-- `transactionEntry`
pub record Change : Type 0 where
  pub expected : Managed
  pub candidate : Managed

-- `fileTransaction`. A Go map is kept as its entries in the order of `paths`, that of the keys.
pub record Transaction : Type 0 where
  pub files : List (Text × Change)
  pub directories : List (Text × Text)

pub data Added : Type 0 where
  added : Transaction → Added
  rejected : Error → Added

-- `<` on strings: byte by byte.
unfoldable pub text_lt : Text → Text → Bool
text_lt [] [] = false
text_lt [] (b ∷ t) = true
text_lt (a ∷ s) [] = false
text_lt (a ∷ s) (b ∷ t) = ltb a b || a == b && text_lt s t

module _ {V : Type 0} where
  unfoldable pub find : Text → List (Text × V) → Option V
  find k [] = none
  find k ((j, v) ∷ m) = if str_eq k j then some v else find k m

  -- A new key, at its place in the order.
  unfoldable pub insert : Text → V → List (Text × V) → List (Text × V)
  unfolding text_lt
  insert k v [] = (k, v) ∷ []
  insert k v ((j, w) ∷ m) = if text_lt k j then (k, v) ∷ ((j, w) ∷ m) else (j, w) ∷ insert k v m

-- `newFileTransaction`
abbrev pub new_transaction : Transaction
new_transaction = record { files = []; directories = [] }

-- `withoutData`
abbrev pub without_data : Managed → Managed
without_data m = record m { bytes = none }

-- `append([]byte(nil), data...)`, which is nil for no bytes.
abbrev pub copied : Text → Option Text
copied [] = none
copied (b ∷ bs) = some (b ∷ bs)

module _ (env : Env) where
  -- `version.data != nil && hashBytes(version.data) != version.digest`, the other way round.
  abbrev pub bytes_match : Option Text → Text → Bool
  bytes_match none digest = true
  bytes_match (some b) digest = str_eq (env.hash b) digest

  abbrev pub no_bytes : Option Text → Bool
  no_bytes none = true
  no_bytes (some b) = length b == 0

  -- `validateManagedVersion`
  unfoldable pub valid_managed : Managed → Bool
  valid_managed m =
      let v = m.version in
      if not v.exists
      then v.mode == 0 && str_eq v.digest [] && no_bytes m.bytes
      else if v.mode == 0 || ltb 511 v.mode || not (valid_hex_sha256 v.digest)
      then false
      else bytes_match m.bytes v.digest

  -- `fileTransaction.add`
  unfoldable pub add : Transaction → Text → Managed → Managed → Added
  unfolding valid_managed
  add t path expected candidate = elim (relative path) [
    | none ↦ rejected not_relative
    | some clean ↦ elim (find clean t.files) [
      | some _ ↦ rejected (duplicate clean)
      | none ↦
          if not (valid_managed expected) || not (valid_managed candidate)
          then rejected (invalid_version clean)
          else added (record t {
            files =
                insert clean (record { expected = without_data expected; candidate = candidate })
                  t.files;
          })
    ]
  ]

  -- The version with which `Add` and `AddMode` write bytes.
  abbrev pub candidate_of : ℕ → Text → Managed
  candidate_of mode bytes = record {
    version = record { exists = true; mode = mode; digest = env.hash bytes };
    bytes = copied bytes;
  }

  -- `Add`: the mode stays, or is 0644 for a new file.
  unfoldable pub add_file : Transaction → Text → Text → Managed → Added
  unfolding add
  add_file t path bytes expected =
      add t path expected
        (candidate_of (if expected.version.exists then expected.version.mode else 420) bytes)

  -- `AddMode`; `is_regular` and `perm` are the mode's type and its permission bits.
  unfoldable pub add_mode : Transaction → Text → Text → Bool → ℕ → Managed → Added
  unfolding add
  add_mode t path bytes is_regular perm expected =
      if not is_regular || perm == 0
      then rejected (invalid_mode path)
      else add t path expected (candidate_of perm bytes)

  -- `Delete`
  unfoldable pub delete : Transaction → Text → Managed → Added
  unfolding add
  delete t path expected =
      if not expected.version.exists
      then added t
      else add t path expected (record { version = absent; bytes = none })

-- `GuardDirectory`
unfoldable pub guard_directory : Transaction → Text → Text → Added
guard_directory t path expected = elim (relative path) [
  | none ↦ rejected not_relative
  | some clean ↦
      if str_eq expected []
      then rejected (empty_identity clean)
      else elim (find clean t.directories) [
        | some _ ↦ rejected (duplicate clean)
        | none ↦ added (record t { directories = insert clean expected t.directories })
      ]
]

-- `Changed`: the entries whose candidate differs, in the order of their paths.
unfoldable pub changed_files : List (Text × Change) → List (Text × Change)
changed_files [] = []
changed_files ((p, c) ∷ m) =
    if same c.expected.version c.candidate.version
    then changed_files m
    else (p, c) ∷ changed_files m
