-- ===== src/Update/Commit/Written.antt =====
-- The journals of a transaction whose paths are valid UTF-8 are read as they are written.
use atum.Base.{
  ℕ, suc, true, Option, some, List, [], ◌∷◌, map, Text, str_eq_iff, ◌≡◌, refl, sym, ap, subst, ◌∙◌,
  inl, inr, Bool-cases, arith,
}
use atum.Update.Disk.{Node, Record, Disk}
use atum.Update.Version.{Env, valid_hex_sha256}
use atum.Update.Encode.{encoded, encoded_record, read_back, is_utf8}
use atum.Update.Encode.Reads.{all_lower_hex-is_utf8, encoded_record_lem}
use atum.Update.Journal.{journal_of, prepared, committed, written}
use atum.Update.Recover.Undoable.{At}
use atum.Update.Recover.Settled.{Recoverable, RecoverableBy, gone, unrecorded, undoing, finishing}
use atum.Update.Transaction.{Managed, Change, valid_managed}
use atum.Update.Transaction.WellFormed.{IsWellFormed, of_entry, records}

-- Every path is valid UTF-8.
abbrev pub HaveUtf8 : List Record → Type 0
HaveUtf8 rs = (j : ℕ) (r : Record) → At rs j r → is_utf8 0 r.path ≡ true

map_same :
    (f : Record → Record) (rs : List Record)
    → ((j : ℕ) (r : Record) → At rs j r → f r ≡ r)
    → map f rs ≡ rs
map_same f [] h = refl
map_same f (r ∷ rs) h = cc (h 0 r refl, map_same f rs (λ j. h (suc j)))

module _ (env : Env) where
  digest-is_utf8 : (m : Managed) → valid_managed env m ≡ true → is_utf8 0 m.version.digest ≡ true
  unfolding valid_managed valid_hex_sha256 is_utf8
  digest-is_utf8 m v = elim (Bool-cases m.version.exists) [
    | inl there ↦ all_lower_hex-is_utf8 m.version.digest (ground (arith, there, v))
    | inr none_there ↦
        subst (λ x. is_utf8 0 x ≡ true)
          (sym ((str_eq_iff m.version.digest []).0 (ground (arith, none_there, v)))) refl
  ]

  encoded-records :
      (m : List (Text × Change)) (v : IsWellFormed env m)
      → HaveUtf8 (records env m v)
      → map encoded_record (records env m v) ≡ records env m v
  encoded-records m v utf8 = map_same encoded_record (records env m v) (λ j r a.
      of_entry env m v (λ r. is_utf8 0 r.path ≡ true → encoded_record r ≡ r)
        (λ e s _ p.
          encoded_record_lem _ p (digest-is_utf8 e.1.expected s.1.0)
            (digest-is_utf8 e.1.candidate s.1.1.0))
        j r a (utf8 j r a))

  readable :
      (rs : List Record) (found : Text → Option Node) (d : Disk)
      → map encoded_record rs ≡ rs
      → RecoverableBy env rs found (written rs) d
      → Recoverable env rs found d
  unfolding encoded read_back
  readable rs found d same (gone p s) = gone p s
  readable rs found d same (unrecorded o j s) = unrecorded o j s
  readable rs found d same (undoing o j u) =
      undoing o (j ∙ ap (λ l. some (journal_of prepared l)) same) u
  readable rs found d same (finishing o j s) =
      finishing o (j ∙ ap (λ l. some (journal_of committed l)) same) s

  -- What a commit leaves can be settled by what a restart reads.
  pub written-Recoverable :
      (m : List (Text × Change)) (v : IsWellFormed env m) (found : Text → Option Node) (d : Disk)
      → HaveUtf8 (records env m v)
      → RecoverableBy env (records env m v) found (written (records env m v)) d
      → Recoverable env (records env m v) found d
  written-Recoverable m v found d utf8 s =
      readable (records env m v) found d (encoded-records m v utf8) s
