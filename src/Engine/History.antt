-- ===== src/Engine/History.antt =====
-- Runs and cleanups of internal/backup/engine.go one after the other, as the scheduler, the
-- commands and the MCP tools call them, and what they leave of one backup.
use datasaver.Base.{
  has_str, Bool, true, false, Str, List, [], ◌∷◌, ◌++◌, Option, str_eq, str_eq_iff, has_str, ok,
  err, ◌≡◌, ◌≢◌, refl, ◌∙◌, inl, inr, arith, All, length, Bool-cases,
}
use datasaver.Base.Sorting.{Sorter}
use datasaver.Clock.{Time}
use datasaver.Config.{Config}
use datasaver.Metadata.{BackupMetadata, generate_backup_id}
use datasaver.Notify.{Notifier}
use datasaver.Rotation.Policy.{Policy}
use datasaver.Rotation.Gfs.{stamp, determine_backups_to_delete}
use datasaver.Storage.{Backend, StorageError}
use datasaver.Storage.Laws.{IsMap}
use datasaver.Validator.{Tools, meta_suffix}
use datasaver.Engine.{Codec, list_backups, cleanup}
use datasaver.Engine.Cleaning.{files_of, AllNames, cleanup_view, cleanup-Good, cleanup_unlisted}
use datasaver.Engine.Run.{Engine, World, run}
use datasaver.Engine.Frame.{file_suffixes, Apart, prepare-name, run-Good, run-view}

-- Equally long beginnings of equal strings are equal.
append_cancel : (a c x y : Str) → length a ≡ length c → a ++ x ≡ c ++ y → a ≡ c
append_cancel [] [] x y h e = refl
append_cancel [] (j ∷ c) x y h e = absurd (ground (arith, h))
append_cancel (i ∷ a) [] x y h e = absurd (ground (arith, h))
append_cancel (i ∷ a) (j ∷ c) x y h e = ground (arith, h, e, append_cancel a c x y)

-- Files of backups with different IDs have different names.
pub names_apart :
    (t u : Time) (x y : Str)
    → generate_backup_id t ≢ generate_backup_id u
    → str_eq (generate_backup_id t ++ x) (generate_backup_id u ++ y) ≡ false
names_apart t u x y other =
    elim (Bool-cases (str_eq (generate_backup_id t ++ x) (generate_backup_id u ++ y))) [
      | inr e ↦ e
      | inl same ↦ absurd (
          other (
            append_cancel (generate_backup_id t) (generate_backup_id u) x y
              (unfold generate_backup_id in refl) ((str_eq_iff _ _).0 same)))
    ]

-- A run does not touch the files of a backup with another ID.
pub other_run-Apart :
    (cfg : Config) (w : World) (u : Time) (suffix : Str)
    → generate_backup_id w.start ≢ generate_backup_id u
    → Apart cfg w (generate_backup_id u ++ suffix)
other_run-Apart cfg w u suffix other = record {
  meta_apart = names_apart w.start u meta_suffix suffix other;
  data_apart = λ p made.
      let (end, _, name) = prepare-name cfg w p made in
      rw name (names_apart w.start u end suffix other);
}

module _ (b : Backend) (k : Codec) (t : Tools) (notifier : Option Notifier) (cfg : Config)
    (sorter : Sorter stamp) (p : Policy) (names : Str → Bool) (u : Time) where
  -- A cleanup deletes no file of the backup, and the names that it deletes are told apart.
  pub record Spares (now : Time) (s : b.State) (ms : List BackupMetadata) : Type 0 where
    pub all_names : All (λ m. AllNames names m.files) (determine_backups_to_delete sorter p now ms)
    pub spared :
        (suffix : Str)
        → has_str
            (generate_backup_id u ++ suffix)
            (files_of (determine_backups_to_delete sorter p now ms))
          ≡ false

  -- A run of another backup, or a cleanup that lists the backups, or cannot list them.
  pub data Step : Engine b → Engine b → Type 0 where
    runs :
        (w : World) (g : Engine b)
        → generate_backup_id w.start ≢ generate_backup_id u
        → Step g (run b k t notifier cfg w g).2
    cleans :
        (now : Time) (g : Engine b) (ms : List BackupMetadata)
        → list_backups b k g.storage ≡ ok ms
        → Spares now g.storage ms
        → Step g (record g { storage = (cleanup b k sorter p now g.storage).1 })
    unlisted :
        (now : Time) (g : Engine b) (e : StorageError)
        → list_backups b k g.storage ≡ err e
        → Step g (record g { storage = (cleanup b k sorter p now g.storage).1 })

  pub data Reach (g : Engine b) : Engine b → Type 0 where
    start : Reach g g
    then_step : {h i : Engine b} → Reach g h → Step h i → Reach g i

  module _ {Good : b.State → Type 0} {view : b.State → Str → Option Str}
      (law : IsMap b Good names view)
      (named : (v : Time) (suffix : Str)
        → has_str suffix file_suffixes ≡ true
        → names (generate_backup_id v ++ suffix) ≡ true) where
    -- The storage is a map, with the files of the backup that have names which are told apart as
    -- they were.
    pub record Holds (before after : Engine b) : Type 0 where
      pub good : Good after.storage
      pub same :
          (suffix : Str)
          → names (generate_backup_id u ++ suffix) ≡ true
          → view after.storage (generate_backup_id u ++ suffix)
            ≡ view before.storage (generate_backup_id u ++ suffix)

    Step-Holds : {g h i : Engine b} → Step h i → Holds g h → Holds g i
    Step-Holds (runs w h other) held = record {
      good = run-Good b k t notifier cfg w law named h held.good;
      same = λ suffix told.
          run-view b k t notifier cfg w law named h held.good (generate_backup_id u ++ suffix) told
            (other_run-Apart cfg w u suffix other)
          ∙ held.same suffix told;
    }
    Step-Holds (cleans now h ms listed spares) held = record {
      good = cleanup-Good b k Good names view law sorter p now h.storage held.good;
      same = λ suffix told.
          let q = generate_backup_id u ++ suffix in
          let (_, after) =
            cleanup_view b k Good names view law sorter p now h.storage held.good ms listed
              spares.all_names q told in
          rw (after, spares.spared suffix) (held.same suffix told);
    }
    Step-Holds (unlisted now h e broken) held =
        rw (cleanup_unlisted b k sorter p now h.storage e broken)
          (record { good = held.good; same = held.same })

    -- Whatever runs of backups with other IDs and whatever cleanups that spare its files follow
    -- each other: on a backend that is a map and tells the names of their files apart, the files of
    -- a backup stay as they are.
    pub Reach-Holds : {g h : Engine b} → Good g.storage → Reach g h → Holds g h
    Reach-Holds good start = record { good = good; same = λ suffix told. refl }
    Reach-Holds good (then_step r st) = Step-Holds st (Reach-Holds good r)
