-- ===== src/Update/Version/Calls.antt =====
-- How `snapshotManagedFile` and `regularFileVersion` end.
use atum.Base.{Option, none, some, Text, ◌≡◌, ◌≢◌, refl, ap}
use atum.Fssecure.{relative}
use atum.Update.Disk.{Node, regular, irregular, Version, Disk, World}
use atum.Update.Version.{Env, version_of, read_regular, or_absent, snapshot, regular_file_version}
use atum.Update.Ends.{Fine, on_ok, Leaves, bind-Ends, ok_then, err_then, call-Leaves}

module _ (env : Env) where
  -- The file at a path has this version.
  abbrev pub IsAt : Disk → Text → Version → Type 0
  IsAt d p v = version_of env (d.files p) ≡ some v

  -- What a version that is read, or its absence, says of the node.
  abbrev pub Reads : Option Node → Option Version → Type 0
  Reads n none = n ≡ none
  Reads n (some v) = (version_of env n ≡ some v) × (n ≢ none)

  Reads-IsAt :
      (n : Option Node) (v : Option Version) → Reads n v → version_of env n ≡ some (or_absent v)
  Reads-IsAt n none e = ap (version_of env) e
  Reads-IsAt n (some v) e = e.0

  module _ (C K : Type 0) (G H : Disk → Type 0) where
    -- The node can be read where `C` holds.
    abbrev pub Readable : Option Node → Type 0
    Readable n = version_of env n ≡ none → C → ⊥

    read_regular-Leaves :
        (node : Disk → Option Node) (n : Option Node) (w : World)
        → node w.disk ≡ n
        → Fine C K w
        → Readable n
        → G w.disk
        → H w.disk
        → Leaves C K (λ v d. (G d × H d) × Reads (node d) v) G H (read_regular env n w)
    read_regular-Leaves node none w e q k g h = on_ok (q, ((g, h), e))
    read_regular-Leaves node (some irregular) w e q k g h = err_then _ _ _ ((k refl, q.1), g)
    read_regular-Leaves node (some (regular m b)) w e q k g h = ok_then _ _ _ (
        bind-Ends _ _
          (call-Leaves C K (λ d. (G d × H d) × (node d ≡ some (regular m b))) G H w q ((g, h), e) g
            h)
          (λ _ w' f. on_ok (
            f.0,
            (f.1.0, (ap (version_of env) f.1.1, λ (e : node w'.disk ≡ none). cc (e, f.1.1))),
          )))

    pub regular_file_version-Leaves :
        (node : Disk → Option Node) (w : World)
        → Fine C K w
        → Readable (node w.disk)
        → G w.disk
        → H w.disk
        → Leaves C K (λ v d. (G d × H d) × Reads (node d) v) G H (regular_file_version env node w)
    unfolding regular_file_version
    regular_file_version-Leaves node w q k g h =
        bind-Ends _ _ (call-Leaves C K (λ d. G d × H d × Readable (node d)) G H w q (g, h, k) g h)
          (λ _ w' f.
            ok_then _ _ _ (read_regular-Leaves node (node w'.disk) w' refl f.0 f.1.2 f.1.0 f.1.1))

    -- A snapshot that is taken is the version of the file, and taking it changes nothing.
    pub snapshot-Leaves :
        (p : Text) (w : World)
        → relative p ≡ some p
        → Fine C K w
        → Readable (w.disk.files p)
        → G w.disk
        → H w.disk
        → Leaves C K (λ v d. (G d × H d) × IsAt d p v) G H (snapshot env p w)
    unfolding snapshot
    snapshot-Leaves p w c q k g h = rw c (
        bind-Ends _ _
          (call-Leaves C K (λ d. G d × H d × Readable (d.files p)) G H w q (g, h, k) g h)
          (λ _ w' f.
            bind-Ends _ _
              (call-Leaves C K (λ d. G d × H d × Readable (d.files p)) G H w' f.0 f.1 f.1.0 f.1.1)
              (λ _ w'' f'. ok_then _ _ _ (
                bind-Ends _ _
                  (read_regular-Leaves (λ d. d.files p) (w''.disk.files p) w'' refl f'.0 f'.1.2
                    f'.1.0 f'.1.1)
                  (λ v w3 r. on_ok (r.0, (r.1.0, Reads-IsAt (w3.disk.files p) v r.1.1)))))))
