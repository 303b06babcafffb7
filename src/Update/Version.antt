-- ===== src/Update/Version.antt =====
-- cli/update/transaction.go: snapshots of managed files and the checks on their versions.
pub mod Calls
use atum.Base.{
  ℕ, ◌*◌, Bool, true, false, ◌&&◌, ◌||◌, not, Option, none, some, List, [], ◌∷◌, Text, str_eq,
  length, ◌==◌, ltb, leb, if◌then◌else◌, ◌≡◌,
}
use atum.Fssecure.{relative}
use atum.Update.Disk.{
  Node, regular, irregular, Version, absent, Journal, Disk, Error, io_error, not_relative,
  irregular_file, invalid_version, Result, ok, err, died, M, ◌>>=◌, ◌>>◌, pure, raise, call, get,
}

-- `validHexSHA256`: 64 lower-case hexadecimal digits.
unfoldable pub is_lower_hex : ℕ → Bool
is_lower_hex c = leb b'0' c && leb c b'9' || leb b'a' c && leb c b'f'

unfoldable pub all_lower_hex : Text → Bool
unfolding is_lower_hex
all_lower_hex [] = true
all_lower_hex (c ∷ s) = is_lower_hex c && all_lower_hex s

unfoldable pub valid_hex_sha256 : Text → Bool
unfolding all_lower_hex
valid_hex_sha256 s = length s == 64 && all_lower_hex s

-- What the package takes from elsewhere: SHA-256 in hexadecimal, the length of a journal's JSON, and
-- the digest of a directory (`none` where it cannot be read).
pub record Env : Type 0 where
  pub hash : Text → Text
  pub journal_size : Journal → ℕ
  pub directory_digest : (Text → Option Node) → Text → Option Text

-- `sameManagedVersion`
unfoldable pub same : Version → Version → Bool
same left right =
    (if left.exists then right.exists else not right.exists)
    && left.mode == right.mode
    && str_eq left.digest right.digest

-- The test `current.exists && current.mode == … && current.digest == …` on a version that exists.
unfoldable pub present_as : Version → Version → Bool
present_as current wanted =
    current.exists && current.mode == wanted.mode && str_eq current.digest wanted.digest

abbrev pub or_absent : Option Version → Version
or_absent none = absent
or_absent (some v) = v

module _ (env : Env) where
  -- The version of what stands at a path, if that is no other kind of file.
  abbrev pub version_of : Option Node → Option Version
  version_of none = some absent
  version_of (some (regular m d)) = some (record { exists = true; mode = m; digest = env.hash d })
  version_of (some irregular) = none

  abbrev pub read_version : Option Version → M Version
  read_version (some v) = pure v
  read_version none = raise irregular_file

  abbrev pub read_regular : Option Node → M (Option Version)
  read_regular none = pure none
  read_regular (some n) = do v ← read_version (version_of (some n)); call; pure (some v)

  abbrev pub snapshot_at : Option Text → M Version
  snapshot_at none = raise not_relative
  snapshot_at (some p) = do call; call; d ← get; v ← read_regular (d.files p); pure (or_absent v)

  -- `snapshotManagedFile`: it resolves the path, inspects it and reads it.
  unfoldable pub snapshot : Text → M Version
  snapshot path = snapshot_at (relative path)

  -- `regularFileVersion` of a numbered backup; `none` where it does not exist.
  unfoldable pub regular_file_version : (Disk → Option Node) → M (Option Version)
  regular_file_version node = do call; d ← get; read_regular (node d)
