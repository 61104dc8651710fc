-- ===== src/Engine/Overlap.antt =====
-- Runs and cleanups of internal/backup/engine.go that overlap: the daemon's job, the MCP tools and
-- the commands work on one storage at the same time, and any of them may be killed.
use datasaver.Base.{
  has_str, ℕ, ◌==◌, Bool, true, Str, List, [], ◌∷◌, ◌++◌, map, Option, if◌then◌else◌, ok, err, ◌≡◌,
  ◌≢◌, refl, ◌∙◌, All, Bool-cases, inl, inr, subst,
}
use datasaver.Base.Sorting.{Sorter}
use datasaver.Clock.{Time}
use datasaver.Config.{Config}
use datasaver.Metadata.{BackupMetadata, generate_backup_id}
use datasaver.Notify.{Notifier}
use datasaver.Rotation.Policy.{Policy}
use datasaver.Rotation.Gfs.{stamp, determine_backups_to_delete}
use datasaver.Storage.{Backend}
use datasaver.Storage.Calls.{
  Call, writes, deletes, path_of, Skips, exec, exec-Good, view-exec, touch-skipped,
}
use datasaver.Storage.Laws.{IsMap}
use datasaver.Validator.{Tools, meta_suffix}
use datasaver.Engine.{Codec, list_backups}
use datasaver.Engine.Cleaning.{files_of, AllNames-files_of}
use datasaver.Engine.Frame.{file_suffixes, has_str-meta_suffix, prepare-name}
use datasaver.Engine.History.{Spares, other_run-Apart}
use datasaver.Engine.Interleaved.{Skips-deletes, named_deletes}
use datasaver.Engine.Run.{World, Prepared, prepare, run_metadata, started}

-- The storage, and the calls that each thread has still to make.
pub record Threads (b : Backend) : Type 0 where
  pub storage : b.State
  pub pending : ℕ → List Call

abbrev pub at_thread : ℕ → List Call → (ℕ → List Call) → ℕ → List Call
at_thread i cs pending j = if i == j then cs else pending j

module _ (names : Str → Bool) (u : Time) where
  -- The calls of a thread have names of files of backups, and are for no file of the backup of this
  -- time.
  pub record IsForeign (cs : List Call) : Type 0 where
    pub all_named : All (λ c. names (path_of c) ≡ true) cs
    pub skips : (suffix : Str) → Skips (generate_backup_id u ++ suffix) cs

  IsForeign-nil : IsForeign []
  IsForeign-nil = record { all_named = tt; skips = λ suffix. tt }

  IsForeign-tail : {c : Call} {cs : List Call} → IsForeign (c ∷ cs) → IsForeign cs
  IsForeign-tail h = record { all_named = h.all_named.1; skips = λ suffix. (h.skips suffix).1 }

  IsForeign-at_thread :
      (i : ℕ) (cs : List Call) (pending : ℕ → List Call)
      → IsForeign cs
      → ((j : ℕ) → IsForeign (pending j))
      → (j : ℕ) → IsForeign (at_thread i cs pending j)
  IsForeign-at_thread i cs pending h hs j = elim (Bool-cases (i == j)) [
    | inl this ↦ rw this h
    | inr other ↦ rw other (hs j)
  ]

module _ (b : Backend) (k : Codec) (t : Tools) (notifier : Option Notifier) (cfg : Config)
    (sorter : Sorter stamp) (p : Policy) (names : Str → Bool) (u : Time) where
  -- A run of another backup that has made its dump, with its metadata or without, a cleanup that
  -- has listed the backups and spares this one, the next call of a thread, or its end. A run goes
  -- on behind its first write, since no write fails on a backend that is a map.
  pub data Step (x : Threads b) : Threads b → Type 0 where
    runs :
        (i : ℕ) (w : World) (d : Prepared) (text : Str)
        → generate_backup_id w.start ≢ generate_backup_id u
        → prepare cfg w ≡ ok d
        → k.to_json (run_metadata cfg w d) ≡ ok text
        → Step x (record x {
          pending =
              at_thread i
                (writes d.path d.text ∷ writes ((started cfg w).id ++ meta_suffix) text ∷ [])
                x.pending;
        })
    runs_bare :
        (i : ℕ) (w : World) (d : Prepared) (e : Str)
        → generate_backup_id w.start ≢ generate_backup_id u
        → prepare cfg w ≡ ok d
        → k.to_json (run_metadata cfg w d) ≡ err e
        → Step x (record x { pending = at_thread i (writes d.path d.text ∷ []) x.pending })
    cleans :
        (i : ℕ) (now : Time) (ms : List BackupMetadata)
        → list_backups b k x.storage ≡ ok ms
        → Spares b k t notifier cfg sorter p names u now x.storage ms
        → Step x (record x {
          pending =
              at_thread i
                (map deletes (files_of (determine_backups_to_delete sorter p now ms)))
                x.pending;
        })
    calls :
        (i : ℕ) (c : Call) (cs : List Call)
        → x.pending i ≡ c ∷ cs
        → Step x (record x { storage = exec b c x.storage; pending = at_thread i cs x.pending })
    ends : (i : ℕ) → Step x (record x { pending = at_thread i [] x.pending })

  pub data Reach (x : Threads b) : Threads b → Type 0 where
    start : Reach x x
    then_step : {y z : Threads b} → Reach x y → Step y z → Reach x z

  module _ {Good : b.State → Type 0} {view : b.State → Str → Option Str}
      (law : IsMap b Good names view)
      (named : (v : Time) (suffix : Str)
        → has_str suffix file_suffixes ≡ true
        → names (generate_backup_id v ++ suffix) ≡ true) where
    -- The storage is a map, with the files of the backup that have names which are told apart as
    -- they were, and no thread is about to touch them.
    pub record Keeps (x y : Threads b) : Type 0 where
      pub good : Good y.storage
      pub same :
          (suffix : Str)
          → names (generate_backup_id u ++ suffix) ≡ true
          → view y.storage (generate_backup_id u ++ suffix)
            ≡ view x.storage (generate_backup_id u ++ suffix)
      pub foreign : (i : ℕ) → IsForeign names u (y.pending i)

    run-IsForeign :
        (w : World) (d : Prepared) (text : Str)
        → generate_backup_id w.start ≢ generate_backup_id u
        → prepare cfg w ≡ ok d
        → IsForeign names u
            (writes d.path d.text ∷ writes ((started cfg w).id ++ meta_suffix) text ∷ [])
    run-IsForeign w d text other made =
        let (end, listed, name) = prepare-name cfg w d made in
        record {
          all_named = (
            rw name (named w.start end listed),
            (named w.start meta_suffix has_str-meta_suffix, tt),
          );
          skips = λ suffix.
              let apart = other_run-Apart cfg w u suffix other in
              (apart.data_apart d made, (apart.meta_apart, tt));
        }

    first_call :
        {c : Call} {cs : List Call} → IsForeign names u (c ∷ cs) → IsForeign names u (c ∷ [])
    first_call h = record {
      all_named = (h.all_named.0, tt);
      skips = λ suffix. ((h.skips suffix).0, tt);
    }

    cleanup-IsForeign :
        (now : Time) (s : b.State) (ms : List BackupMetadata)
        → Spares b k t notifier cfg sorter p names u now s ms
        → IsForeign names u (map deletes (files_of (determine_backups_to_delete sorter p now ms)))
    cleanup-IsForeign now s ms spares =
        let deleted = determine_backups_to_delete sorter p now ms in
        record {
          all_named =
              named_deletes names (files_of deleted)
                (AllNames-files_of names deleted spares.all_names);
          skips = λ suffix.
              Skips-deletes (generate_backup_id u ++ suffix) (files_of deleted)
                (spares.spared suffix);
        }

    Step-Keeps : {x y z : Threads b} → Step y z → Keeps x y → Keeps x z
    Step-Keeps {y = y} (runs i w d text other made json) h = record {
      good = h.good;
      same = h.same;
      foreign =
          IsForeign-at_thread names u i _ y.pending (run-IsForeign w d text other made) h.foreign;
    }
    Step-Keeps {y = y} (runs_bare i w d e other made json) h = record {
      good = h.good;
      same = h.same;
      foreign =
          IsForeign-at_thread names u i _ y.pending (first_call (run-IsForeign w d [] other made))
            h.foreign;
    }
    Step-Keeps {y = y} (cleans i now ms listed spares) h = record {
      good = h.good;
      same = h.same;
      foreign =
          IsForeign-at_thread names u i _ y.pending (cleanup-IsForeign now y.storage ms spares)
            h.foreign;
    }
    Step-Keeps {y = y} (calls i c cs next) h =
        let mine : IsForeign names u (c ∷ cs) = subst (IsForeign names u) next (h.foreign i) in
        record {
          good = exec-Good b law c y.storage h.good;
          same = λ suffix told.
              let q = generate_backup_id u ++ suffix in
              view-exec b law c y.storage q h.good mine.all_named.0 told
              ∙ touch-skipped q c (view y.storage q) (mine.skips suffix).0
              ∙ h.same suffix told;
          foreign =
              IsForeign-at_thread names u i cs y.pending (IsForeign-tail names u mine) h.foreign;
        }
    Step-Keeps {y = y} (ends i) h = record {
      good = h.good;
      same = h.same;
      foreign = IsForeign-at_thread names u i [] y.pending (IsForeign-nil names u) h.foreign;
    }

    -- However runs of backups with other IDs, cleanups that spare its files when they list the
    -- backups, and ends of threads at any of their calls overlap: on a backend that is a map and
    -- tells the names of the files of backups apart, every file whose name begins with the ID of a
    -- backup, and is told apart, stays as it is, if no thread is about to touch the files of the
    -- backup at the start.
    pub Reach-Keeps :
        {x y : Threads b}
        → Good x.storage
        → ((i : ℕ) → IsForeign names u (x.pending i))
        → Reach x y
        → Keeps x y
    Reach-Keeps good quiet start = record {
      good = good;
      same = λ suffix told. refl;
      foreign = quiet;
    }
    Reach-Keeps good quiet (then_step r st) = Step-Keeps st (Reach-Keeps good quiet r)
