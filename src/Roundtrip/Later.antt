-- ===== src/Roundtrip/Later.antt =====
-- A backup of internal/backup/engine.go, restored after other backups and cleanups.
use datasaver.Base.{has_str, Bool, true, false, Str, [], ◌∷◌, ◌++◌, Option, none, ok, ◌≡◌, ◌∙◌}
use datasaver.Base.Sorting.{Sorter}
use datasaver.Clock.{Time}
use datasaver.Config.{Config}
use datasaver.Driver.{Driver}
use datasaver.Metadata.{generate_backup_id}
use datasaver.Notify.{Notifier}
use datasaver.Rotation.Policy.{Policy}
use datasaver.Rotation.Gfs.{stamp}
use datasaver.Storage.{Backend}
use datasaver.Storage.Laws.{IsMap}
use datasaver.Validator.{Tools, meta_suffix}
use datasaver.Engine.{Codec}
use datasaver.Engine.Frame.{file_suffixes, has_str-meta_suffix, prepare-name}
use datasaver.Engine.History.{Reach, Reach-Holds}
use datasaver.Engine.Run.{Engine, Prepared, prepare, run_metadata, run, started, make_dump}
use datasaver.Engine.Run.{World as BackupWorld}
use datasaver.Engine.Stored.{view-dump, view-meta, after_Good}
use datasaver.Restore.{RestoreOptions, World, restore, target, parse_connection_info}
use datasaver.Roundtrip.{Restores, calls-restore_stored}

module _ (b : Backend) (k : Codec) (t : Tools) (notifier : Option Notifier) (cfg : Config)
    (sorter : Sorter stamp) (policy : Policy) (w : BackupWorld) (g : Engine b) (p : Prepared)
    (prepared : prepare cfg w ≡ ok p) (success : (run b k t notifier cfg w g).1 ≡ none)
    (Good : b.State → Type 0) (names : Str → Bool) (view : b.State → Str → Option Str)
    (law : IsMap b Good names view)
    (named : (u : Time) (suffix : Str)
      → has_str suffix file_suffixes ≡ true
      → names (generate_backup_id u ++ suffix) ≡ true)
    (good : Good g.storage) (text : Str) (json : k.to_json (run_metadata cfg w p) ≡ ok text) where
  -- On a backend that is a map, where the names of the files of backups are told apart: after a run
  -- that returns no error, and then whatever runs with other IDs and cleanups that spare its files,
  -- a restore of its ID, where it can make its temporary files, unpack what gzip has packed, sum up
  -- as the run has and parse the metadata, calls pg_restore once, with the bytes that were dumped.
  pub restore-Reach :
      (rw' : World) (rcfg : Config) (opts : RestoreOptions) (driver : Driver) (version dump : Str)
      (h : Engine b)
      → make_dump cfg w ≡ ok (driver, version, dump)
      → Restores rw' w dump text (run_metadata cfg w p)
      → opts.backup_id ≡ (started cfg w).id
      → opts.dry_run ≡ false
      → Reach b k t notifier cfg sorter policy names w.start (run b k t notifier cfg w g).2 h
      → (restore b rw' rcfg opts h.storage).calls
        ≡ record {
          text = dump;
          options = record (parse_connection_info rw' rcfg) {
            database = target b rw' rcfg opts h.storage (run_metadata cfg w p);
          };
        }
          ∷ []
  restore-Reach rw' rcfg opts driver version dump h dumped can same real r =
      let (suffix, own_suffix, name) = prepare-name cfg w p prepared in
      let named_dump : names p.path ≡ true = rw name (named w.start suffix own_suffix) in
      let named_meta = named w.start meta_suffix has_str-meta_suffix in
      let sound =
        after_Good b k t notifier cfg w g p prepared success Good names view law good text json
          named_dump named_meta in
      let held = Reach-Holds b k t notifier cfg sorter policy names w.start law named sound r in
      calls-restore_stored b law rw' rcfg opts cfg w p driver version dump text prepared dumped can
        same real h.storage held.good
        (rw name (held.same suffix (named w.start suffix own_suffix))
          ∙ view-dump b k t notifier cfg w g p prepared success Good names view law good text json
              named_dump named_meta)
        (held.same meta_suffix named_meta
          ∙ view-meta b k t notifier cfg w g p prepared success Good names view law good text json
              named_dump named_meta)
