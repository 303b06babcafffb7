-- ===== src/Update/Commit/Stage.antt =====
-- Staging: the candidates and the backups are in the directory before the journal is.
use atum.Base.{
  ℕ, suc, ◌<◌, ◌+◌, true, Option, none, some, List, [], ◌∷◌, Text, str_eq_iff, length, get_elem?,
  ◌≡◌, refl, sym, ◌∙◌, ap, arith, subst,
}
use native.Mathlib.Decide.{ℕ_discrete}
use native.Mathlib.Nat.{add-zero}
use mathlib.Core.Option.{some-injective}
use atum.Update.Disk.{
  Node, regular, irregular, Version, absent, Record, Disk, World, backup_mismatch, calls, raise,
  pure, ◌>>◌, change,
}
use atum.Update.Disk.Put.{put_at_self, put_at_ne}
use atum.Update.Version.{Env, version_of, same}
use atum.Update.Version.Calls.{IsAt}
use atum.Update.Journal.{set_candidate, set_backup, backup_at, candidate_at}
use atum.Update.Transaction.{Change}
use atum.Update.Ends.{on_ok, Fine, Leaves, bind-Ends, ok_then, if-Ends, calls-Leaves}
use atum.Update.Recover.Undoable.{At}
use atum.Update.Commit.{
  record_of, bytes_or_empty, stage_candidate, backup_of, read_absolute, make_backup, stage_backup,
  stage,
}

-- `sameManagedVersion` tells equal versions.
pub same→eq : (u v : Version) → same u v ≡ true → u ≡ v
unfolding same
same→eq u v h = ground (arith, str_eq_iff u.digest v.digest)

pub same_refl : (u v : Version) → u ≡ v → same u v ≡ true
unfolding same
same_refl u v e = ground (arith, str_eq_iff u.digest v.digest)

module _ (env : Env) where
  -- The candidate's digest is that of its bytes.
  abbrev pub IsFaithful : Change → Type 0
  IsFaithful c =
      c.candidate.version.exists ≡ true
      → env.hash (bytes_or_empty c.candidate.bytes) ≡ c.candidate.version.digest

  -- Candidate and backup of record `j` are in the directory.
  pub record IsStaged (d : Disk) (j : ℕ) (r : Record) : Type 0 where
    pub candidate : r.candidate.exists ≡ true → version_of env (candidate_at j d) ≡ some r.candidate
    pub backup : r.original.exists ≡ true → version_of env (backup_at j d) ≡ some r.original

  module _ (rs : List Record) (start : Disk) where
    -- No managed file has been touched, and the first `k` records are staged.
    pub record Staging (k : ℕ) (d : Disk) : Type 0 where
      pub files : d.files ≡ start.files
      pub present : d.present ≡ start.present
      pub name : d.entry.name ≡ start.entry.name
      pub is_directory : d.entry.is_directory ≡ start.entry.is_directory
      pub journal : d.entry.journal ≡ start.entry.journal
      pub staged : (j : ℕ) (r : Record) → At rs j r → j < k → IsStaged d j r

    -- The directory looks as it did when it was made, but for candidates and backups.
    abbrev pub Fresh : Disk → Type 0
    Fresh = Staging 0

    pub fresh : {d : Disk} (k : ℕ) → Staging k d → Fresh d
    fresh k s = record {
      files = s.files;
      present = s.present;
      name = s.name;
      is_directory = s.is_directory;
      journal = s.journal;
      staged = λ j r a h. absurd (omega arith);
    }

    module _ (C K : Type 0) (k : ℕ) (p : Text) (c : Change) (a : At rs k (record_of (p, c))) where
      -- One record is half staged: its candidate is there.
      record Half (d : Disk) : Type 0 where
        before : Staging k d
        candidate :
            c.candidate.version.exists ≡ true
            → version_of env (candidate_at k d) ≡ some c.candidate.version

      candidate_staged :
          (d : Disk)
          → IsFaithful c
          → c.candidate.version.exists ≡ true
          → Staging k d
          → Half (
              set_candidate k
                (some (regular c.candidate.version.mode (bytes_or_empty c.candidate.bytes)))
                d)
      candidate_staged d f x s = record {
        before = record {
          files = s.files;
          present = s.present;
          name = s.name;
          is_directory = s.is_directory;
          journal = s.journal;
          staged = λ j r b h. record {
            candidate = λ y.
                rw (put_at_ne d.entry.candidates k j node (λ e. absurd (omega arith)))
                  ((s.staged j r b h).candidate y);
            backup = (s.staged j r b h).backup;
          };
        };
        candidate = λ y. rw (put_at_self d.entry.candidates k node) (ground (arith, f x));
      }
        where
          node : Option Node
          node = some (regular c.candidate.version.mode (bytes_or_empty c.candidate.bytes))

      stage_candidate-Leaves :
          (w : World)
          → IsFaithful c
          → Fine C K w
          → Staging k w.disk
          → Leaves C K (λ _. Half) Fresh Fresh (stage_candidate k c w)
      unfolding stage_candidate
      stage_candidate-Leaves w f q s =
          if-Ends c.candidate.version.exists (calls 5 >> change (set_candidate k node)) (pure tt) w
            (λ x.
              bind-Ends _ _
                (calls-Leaves C K (Staging k) Fresh Fresh (λ d s. (fresh k s, fresh k s)) 5 w q s)
                (λ _ w' g. on_ok (g.0, candidate_staged w'.disk f x g.1)))
            (λ x. on_ok (q, record { before = s; candidate = λ y. cc (x, y) }))
        where
          node : Option Node
          node = some (regular c.candidate.version.mode (bytes_or_empty c.candidate.bytes))

      backup_staged :
          (d : Disk) (b : Text)
          → Half d
          → Half (set_backup k (some (regular c.expected.version.mode b)) d)
      backup_staged d b h = record {
        before = record {
          files = h.before.files;
          present = h.before.present;
          name = h.before.name;
          is_directory = h.before.is_directory;
          journal = h.before.journal;
          staged = λ j r a l. record {
            candidate = (h.before.staged j r a l).candidate;
            backup = λ y.
                rw
                  (put_at_ne d.entry.backups k j (some (regular c.expected.version.mode b))
                    (λ e. absurd (omega arith)))
                  ((h.before.staged j r a l).backup y);
          };
        };
        candidate = h.candidate;
      }

      here-IsStaged :
          (d : Disk)
          → Half d
          → (c.expected.version.exists ≡ true
              → version_of env (backup_at k d) ≡ some c.expected.version)
          → (j : ℕ) (r : Record) → At rs j r
          → k ≡ j
          → IsStaged d j r
      here-IsStaged d h b j r e i =
          subst (λ j. IsStaged d j r) i
            (subst (IsStaged d k) (some-injective _ _ (sym a ∙ ap (get_elem? rs) i ∙ e))
              (record { candidate = h.candidate; backup = b }))

      -- Both halves make one more staged record.
      whole :
          (d : Disk)
          → Half d
          → (c.expected.version.exists ≡ true
              → version_of env (backup_at k d) ≡ some c.expected.version)
          → Staging (suc k) d
      whole d h b = record {
        files = h.before.files;
        present = h.before.present;
        name = h.before.name;
        is_directory = h.before.is_directory;
        journal = h.before.journal;
        staged = λ j r e l. elim (ℕ_discrete k j) [
          | yes i ↦ here-IsStaged d h b j r e i
          | no ne ↦ h.before.staged j r e (omega arith)
        ];
      }

      module _ (f : IsFaithful c) (verified : IsAt env start p c.expected.version)
          (x : c.expected.version.exists ≡ true) where
        -- The copy has the expected version.
        copy_version :
            (m : ℕ) (b : Text)
            → version_of env (some (regular m b)) ≡ some c.expected.version
            → version_of env (some (regular c.expected.version.mode b)) ≡ some c.expected.version
        copy_version m b e = ground arith

        abbrev Backed : Disk → Type 0
        Backed d = Half d × (version_of env (backup_at k d) ≡ some c.expected.version)

        Half-Fresh : (d : Disk) → Half d → Fresh d × Fresh d
        Half-Fresh d h = (fresh k h.before, fresh k h.before)

        backup_of-Leaves :
            (n : Option Node) (w : World)
            → w.disk.files p ≡ n
            → Fine C K w
            → Half w.disk
            → Leaves C K (λ _. Backed) Fresh Fresh (backup_of k c.expected.version.mode n w)
        backup_of-Leaves none w e q h =
            let o : ◌≡◌ {A = Option Version} (some absent) (some c.expected.version) =
              ap (version_of env) (sym e ∙ ap (λ g. g p) h.before.files) ∙ verified in
            absurd (ground (arith, o, x))
        backup_of-Leaves (some irregular) w e q h =
            let o : ◌≡◌ {A = Option Version} none (some c.expected.version) =
              ap (version_of env) (sym e ∙ ap (λ g. g p) h.before.files) ∙ verified in
            cc (o)
        backup_of-Leaves (some (regular m b)) w e q h = on_ok (
          q,
          (
            backup_staged w.disk b h,
            rw (put_at_self w.disk.entry.backups k (some (regular c.expected.version.mode b))) (
                copy_version m b
                  (ap (version_of env) (sym e ∙ ap (λ g. g p) h.before.files) ∙ verified)),
          ),
        )

        read_absolute-Leaves :
            (n : Option Node) (w : World)
            → backup_at k w.disk ≡ n
            → Fine C K w
            → Backed w.disk
            → Leaves C K
                (λ v d. Backed d × (v ≡ c.expected.version))
                Fresh
                Fresh
                (read_absolute env n w)
        read_absolute-Leaves none w e q b =
            let o : ◌≡◌ {A = Option Version} (some absent) (some c.expected.version) =
              ap (version_of env) (sym e) ∙ b.1 in
            absurd (ground (arith, o, x))
        read_absolute-Leaves (some irregular) w e q b =
            let o : ◌≡◌ {A = Option Version} none (some c.expected.version) =
              ap (version_of env) (sym e) ∙ b.1 in
            cc (o)
        read_absolute-Leaves (some (regular m z)) w e q b =
            on_ok (q, (b, some-injective _ _ (ap (version_of env) (sym e) ∙ b.1)))

        make_backup-Leaves :
            (w : World)
            → Fine C K w
            → Half w.disk
            → Leaves C K (λ _. Staging (suc k)) Fresh Fresh (make_backup env k p c w)
        make_backup-Leaves w q h =
            bind-Ends _ _ (calls-Leaves C K Half Fresh Fresh Half-Fresh 5 w q h) (λ _ w1 f1.
              bind-Ends _ _ (ok_then _ _ _ (backup_of-Leaves (w1.disk.files p) w1 refl f1.0 f1.1))
                (λ _ w2 f2.
                  bind-Ends _ _
                    (calls-Leaves C K Backed Fresh Fresh (λ d b. Half-Fresh d b.0) 2 w2 f2.0 f2.1)
                    (λ _ w3 f3.
                      bind-Ends _ _
                        (ok_then _ _ _
                          (read_absolute-Leaves (backup_at k w3.disk) w3 refl f3.0 f3.1))
                        (λ v w4 f4.
                          if-Ends (same v c.expected.version) (pure tt) (raise (backup_mismatch p))
                            w4 (λ _. on_ok (f4.0, whole w4.disk f4.1.0.0 (λ _. f4.1.0.1)))
                            (λ t. cc (t, same_refl v c.expected.version f4.1.1))))))

      stage_backup-Leaves :
          (w : World)
          → IsFaithful c
          → IsAt env start p c.expected.version
          → Fine C K w
          → Half w.disk
          → Leaves C K (λ _. Staging (suc k)) Fresh Fresh (stage_backup env k p c w)
      unfolding stage_backup
      stage_backup-Leaves w f v q h =
          if-Ends c.expected.version.exists (make_backup env k p c) (pure tt) w
            (λ x. make_backup-Leaves f v x w q h) (λ x. on_ok (q, whole w.disk h (λ y. cc (x, y))))

    module _ (C K : Type 0) where
      -- Every changed file is staged, or no managed file has been touched.
      pub stage-Leaves :
          (k : ℕ) (m : List (Text × Change)) (w : World)
          → ((j : ℕ) (e : Text × Change) → get_elem? m j ≡ some e → At rs (k + j) (record_of e))
          → ((j : ℕ) (e : Text × Change) → get_elem? m j ≡ some e → IsFaithful e.1)
          → ((j : ℕ) (e : Text × Change)
              → get_elem? m j ≡ some e
              → IsAt env start e.0 e.1.expected.version)
          → Fine C K w
          → Staging k w.disk
          → Leaves C K (λ _. Staging (k + length m)) Fresh Fresh (stage env k m w)
      unfolding stage
      stage-Leaves k [] w at f v q s = on_ok (q, rw (add-zero k) s)
      stage-Leaves k ((p, c) ∷ m) w at f v q s =
          let a : At rs k (record_of (p, c)) = rw (← add-zero k) (at 0 (p, c) refl) in
          bind-Ends _ _ (stage_candidate-Leaves C K k p c a w (f 0 (p, c) refl) q s) (λ _ w1 f1.
            bind-Ends _ _
              (stage_backup-Leaves C K k p c a w1 (f 0 (p, c) refl) (v 0 (p, c) refl) f1.0 f1.1)
              (λ _ w2 f2.
                let shift : (j : ℕ) → suc k + j ≡ k + suc j = λ j. omega arith in
                rw (← shift (length m)) (
                  stage-Leaves (suc k) m w2 (λ j e h. rw (shift j) (at (suc j) e h))
                    (λ j. f (suc j)) (λ j. v (suc j)) f2.0 f2.1)))
