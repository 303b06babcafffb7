-- ===== src/Update/Recover/Checked.antt =====
-- What the checks of `readTransactionJournal` on the records establish.
use atum.Base.{
  ℕ, zero, suc, true, false, Option, none, some, List, [], ◌∷◌, Text, str_eq, str_eq_iff, ==_iff,
  ◌≡◌, refl, sym, ap, ◌∙◌, arith, Option-cases, inl, inr,
}
use atum.Fssecure.{relative}
use atum.Update.Disk.{Version, absent, Record, Journal}
use atum.Update.Version.{Env}
use atum.Update.Journal.{valid_material, valid_record, mem_path, check_records, journal_problem}
use atum.Update.Recover.Undoable.{At, AreValid}

valid_record-clean : (r : Record) → valid_record r ≡ true → relative r.path ≡ some r.path
unfolding valid_record
valid_record-clean r h = elim (Option-cases (relative r.path)) [
  | inl e ↦ ground arith
  | inr (p, e) ↦ ground (arith, str_eq_iff p r.path)
]

valid_material-absent : (v : Version) → valid_material v ≡ true → v.exists ≡ false → v ≡ absent
unfolding valid_material
valid_material-absent v h e = ground (arith, str_eq_iff v.digest [], ==_iff v.mode 0)

valid_record-material :
    (r : Record)
    → valid_record r ≡ true
    → (valid_material r.original ≡ true) × (valid_material r.candidate ≡ true)
unfolding valid_record
valid_record-material r h = elim (Option-cases (relative r.path)) [
  | inl e ↦ ground arith
  | inr (p, e) ↦ ground arith
]

mem_path-cons :
    (p q : Text) (seen : List Text)
    → mem_path p (q ∷ seen) ≡ false
    → (str_eq p q ≡ false) × (mem_path p seen ≡ false)
unfolding mem_path
mem_path-cons p q seen h = ground arith

-- The head and the tail of records that pass.
check_records-cons :
    (seen : List Text) (r : Record) (rs : List Record)
    → check_records seen (r ∷ rs) ≡ none
    → (valid_record r ≡ true)
      × (mem_path r.path seen ≡ false)
      × (check_records (r.path ∷ seen) rs ≡ none)
unfolding check_records
check_records-cons seen r rs h = ground arith

check_records-valid :
    (seen : List Text) (rs : List Record) (i : ℕ) (r : Record)
    → check_records seen rs ≡ none
    → At rs i r
    → (valid_record r ≡ true) × (mem_path r.path seen ≡ false)
check_records-valid seen [] i r h a = cc
check_records-valid seen (q ∷ rs) zero r h a =
    let c = check_records-cons seen q rs h in ground arith
check_records-valid seen (q ∷ rs) (suc i) r h a =
    let c = check_records-cons seen q rs h in
    let (v, m) = check_records-valid (q.path ∷ seen) rs i r c.2 a in
    (v, (mem_path-cons r.path q.path seen m).1)

-- A later record has another path than the first.
later-ne :
    (seen : List Text) (q : Record) (rs : List Record) (j : ℕ) (r : Record)
    → check_records seen (q ∷ rs) ≡ none
    → At rs j r
    → q.path ≡ r.path
    → ⊥
later-ne seen q rs j r h a e =
    let c = check_records-cons seen q rs h in
    let (v, m) = check_records-valid (q.path ∷ seen) rs j r c.2 a in
    let n = (mem_path-cons r.path q.path seen m).0 in ground (arith, str_eq_iff r.path q.path)

check_records-distinct :
    (seen : List Text) (rs : List Record) (i j : ℕ) (r q : Record)
    → check_records seen rs ≡ none
    → At rs i r
    → At rs j q
    → r.path ≡ q.path
    → i ≡ j
check_records-distinct seen [] i j r q h a b e = cc
check_records-distinct seen (s ∷ rs) zero zero r q h a b e = refl
check_records-distinct seen (s ∷ rs) zero (suc j) r q h a b e =
    absurd (later-ne seen s rs j q h b (some_path s r a ∙ e))
  where
    some_path : (s r : Record) → ◌≡◌ {A = Option Record} (some s) (some r) → s.path ≡ r.path
    some_path s r a = ground arith
check_records-distinct seen (s ∷ rs) (suc i) zero r q h a b e =
    absurd (later-ne seen s rs i r h a (some_path s q b ∙ sym e))
  where
    some_path : (s r : Record) → ◌≡◌ {A = Option Record} (some s) (some r) → s.path ≡ r.path
    some_path s r a = ground arith
check_records-distinct seen (s ∷ rs) (suc i) (suc j) r q h a b e =
    ap suc
      (check_records-distinct (s.path ∷ seen) rs i j r q (check_records-cons seen s rs h).2 a b e)

journal_problem-records :
    (env : Env) (j : Journal) → journal_problem env j ≡ none → check_records [] j.files ≡ none
unfolding journal_problem
journal_problem-records env j h = ground arith

-- Records of a journal that is accepted are valid.
pub journal_problem-AreValid :
    (env : Env) (j : Journal) → journal_problem env j ≡ none → AreValid j.files
journal_problem-AreValid env j h =
    let c = journal_problem-records env j h in
    record {
      clean = λ i r a. valid_record-clean r (check_records-valid [] j.files i r c a).0;
      no_original = λ i r a e.
          valid_material-absent r.original
            (valid_record-material r (check_records-valid [] j.files i r c a).0).0 e;
      no_candidate = λ i r a e.
          valid_material-absent r.candidate
            (valid_record-material r (check_records-valid [] j.files i r c a).0).1 e;
      distinct = λ i k r q a b e. check_records-distinct [] j.files i k r q c a b e;
    }
