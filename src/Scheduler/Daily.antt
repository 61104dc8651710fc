-- ===== src/Scheduler/Daily.antt =====
-- runBackup of internal/backup/scheduler.go: a run of the engine, the cleanup behind it, and the
-- time of the next run.
use mathlib.Core.List.{Memᴰ}
use datasaver.Base.{
  has_str, Bool, true, Str, List, ◌++◌, Option, some, none, ok, ◌≡◌, ◌∙◌, All, count, take,
}
use datasaver.Base.Int.{pos_part}
use datasaver.Base.Sorting.{Sorter}
use datasaver.Clock.{Time}
use datasaver.Config.{Config}
use datasaver.Metadata.{BackupMetadata, generate_backup_id}
use datasaver.Notify.{Notifier}
use datasaver.Rotation.Gfs.{stamp, is_expired, determine_backups_to_delete}
use datasaver.Storage.{Backend}
use datasaver.Storage.Laws.{IsMap}
use datasaver.Validator.{Tools, meta_suffix}
use datasaver.Engine.{Codec, list_backups, cleanup}
use datasaver.Engine.Cleaning.{AllNames}
use datasaver.Engine.Frame.{file_suffixes, has_str-meta_suffix, prepare-name}
use datasaver.Engine.History.{Reach, Step, Reach-Holds}
use datasaver.Engine.Outcome.{run_succeeded}
use datasaver.Engine.Run.{Engine, World, Prepared, prepare, run, run_metadata, engine_policy}
use datasaver.Engine.Sparing.{is_foreign, newest-Spares}
use datasaver.Engine.Stored.{view-dump, after_Good}
use datasaver.Scheduler.{Cron, Scheduler, after_backup}

-- `cleaned` and `ended` are the times of the cleanup and of the end. Errors are logged only.
unfoldable pub run_backup :
    (b : Backend)
    → Codec
    → Tools
    → Option Notifier
    → Config
    → World
    → Sorter stamp
    → Cron
    → (cleaned ended : Time) → Scheduler × Engine b
    → Scheduler × Engine b
unfolding after_backup
run_backup b k t notifier cfg w sorter c cleaned ended (s, g) =
    let g1 = (run b k t notifier cfg w g).2 in
    let (_, storage) = cleanup b k sorter (engine_policy cfg) cleaned g1.storage in
    (after_backup c ended s, record g1 { storage = storage })

-- RunNow
unfoldable pub run_now :
    (b : Backend)
    → Codec
    → Tools
    → Option Notifier
    → Config
    → World
    → Engine b
    → Option Str × Engine b
run_now b k t notifier cfg w g = let (_, error, g') = run b k t notifier cfg w g in (error, g')

module _ (b : Backend) (k : Codec) (t : Tools) (notifier : Option Notifier) (cfg : Config)
    (w : World) (sorter : Sorter stamp) (c : Cron) (cleaned ended : Time) (s : Scheduler)
    (g : Engine b) (p : Prepared) (prepared : prepare cfg w ≡ ok p)
    (success : (run b k t notifier cfg w g).1 ≡ none) (Good : b.State → Type 0) (names : Str → Bool)
    (view : b.State → Str → Option Str) (law : IsMap b Good names view)
    (named : (v : Time) (suffix : Str)
      → has_str suffix file_suffixes ≡ true
      → names (generate_backup_id v ++ suffix) ≡ true)
    (good : Good g.storage) (text : Str) (json : k.to_json (run_metadata cfg w p) ≡ ok text) where
  abbrev ran : Engine b
  ran = (run b k t notifier cfg w g).2

  -- On a backend that is a map: a scheduled backup whose run returns no error still has its dump
  -- after the cleanup that follows, if its metadata is among the newest listed, as many as the
  -- daily limit allows, no listed backup is past the maximum age, and none with another ID lists
  -- its files. The engine has no last error then, and the time of the run as the last one.
  pub run_backup_kept :
      (ms : List BackupMetadata) (m : BackupMetadata)
      → list_backups b k ran.storage ≡ ok ms
      → m.id ≡ generate_backup_id w.start
      → Memᴰ m (take (pos_part (engine_policy cfg).keep_daily) (sorter.sort ms))
      → count (is_expired (engine_policy cfg) cleaned) ms ≡ 0
      → ((suffix : Str)
          → count
              (is_foreign (generate_backup_id w.start) (generate_backup_id w.start ++ suffix))
              ms
            ≡ 0)
      → All
          (λ d. AllNames names d.files)
          (determine_backups_to_delete sorter (engine_policy cfg) cleaned ms)
      → let (s', g') = run_backup b k t notifier cfg w sorter c cleaned ended (s, g) in
        (view g'.storage p.path ≡ some p.text) × (g'.last_error ≡ none) × (g'.last_run ≡ w.start)
  unfolding run_backup
  run_backup_kept ms m listed id newest fresh own told_apart =
      let policy = engine_policy cfg in
      let (suffix, own_suffix, name) = prepare-name cfg w p prepared in
      let named_dump : names p.path ≡ true = rw name (named w.start suffix own_suffix) in
      let named_meta = named w.start meta_suffix has_str-meta_suffix in
      let sound =
        after_Good b k t notifier cfg w g p prepared success Good names view law good text json
          named_dump named_meta in
      let spares =
        newest-Spares b k t notifier cfg sorter policy names w.start cleaned ran.storage ms m id
          newest fresh own told_apart in
      let held =
        Reach-Holds b k t notifier cfg sorter policy names w.start law named sound
          (Reach.then_step Reach.start (Step.cleans cleaned ran ms listed spares)) in
      let (error, last, _) = run_succeeded b k t notifier cfg w g success in
      (
        rw name (held.same suffix (named w.start suffix own_suffix))
            ∙ view-dump b k t notifier cfg w g p prepared success Good names view law good text json
                named_dump named_meta,
        error,
        last,
      )
