-- ===== src/Tests/Run/Daily.antt =====
-- An example of the theorem on a scheduled backup: a run on a disk that holds another backup.
use mathlib.Core.List.{Memᴰ}
use datasaver.Base.{
  Bool, true, false, ◌&&◌, All, Str, bytes, List, [], ◌∷◌, ◌++◌, some, none, ok, ◌≡◌, refl, count,
  str_eq, str_eq_refl, if◌then◌else◌, has_str, has_prefix, has_suffix, trim_prefix, to_lower,
}
use datasaver.Base.Int.{wrap, ◌*ℤ◌}
use datasaver.Base.Sorting.Insertion.{insertion, insertion_sort}
use datasaver.Clock.{since, local_seconds, local_days}
use datasaver.Clock.Civil.{date_of}
use datasaver.Driver.{new_driver}
use datasaver.Metadata.{
  BackupMetadata, generate_backup_id, time_name, new_backup_metadata, set_backup_info,
  set_retention, add_file,
}
use datasaver.Rotation.Gfs.{stamp, is_expired}
use datasaver.Storage.Local.{modified_at, list, read, write}
use datasaver.Storage.Local.Laws.{IsSound, content_at}
use datasaver.Engine.{Codec, list_backups}
use datasaver.Engine.Run.{run, run_metadata, driver_config, prepare, dump_path, engine_policy}
use datasaver.Engine.Cleaning.{AllNames}
use datasaver.Config.{is_sqlite}
use datasaver.Storage.Disk.{insert}
use datasaver.Engine.Sparing.{is_foreign}
use datasaver.Scheduler.{Cron, new_scheduler}
use datasaver.Scheduler.Daily.{run_backup, run_backup_kept}
use datasaver.Tests.Data.{
  codec, stored, slashes, base, local, all_names, local-IsMap, disk-IsSound, tools, named_config,
  day_time,
}
use datasaver.Tests.Run.{world, engine, hook, prepared, made}

-- The text "a" is the metadata of the other backup, and every other text that of the run.
abbrev two_codec : Codec
two_codec = record codec {
  parse = λ text.
      ok (if str_eq text (bytes "a") then stored else run_metadata named_config world prepared);
}

abbrev cron : Cron
cron = record { parse = λ schedule. none; next = λ schedule now. day_time 13 }

runs_well : (run local two_codec tools hook named_config world engine).1 ≡ none
unfolding run prepare new_driver has_str driver_config write
runs_well = refl

abbrev both : List BackupMetadata
both = run_metadata named_config world prepared ∷ stored ∷ []

lists_both :
    list_backups local two_codec
      (run local two_codec tools hook named_config world engine).2.storage
    ≡ ok both
unfolding list_backups list read insertion_sort str_eq has_suffix has_prefix trim_prefix run prepare
    new_driver has_str driver_config write dump_path generate_backup_id time_name local_seconds
    local_days date_of run_metadata new_backup_metadata set_backup_info set_retention add_file
    prepared insert is_sqlite to_lower
lists_both = refl

all_fresh : count (is_expired (engine_policy named_config) (day_time 12)) both ≡ 0
unfolding is_expired engine_policy wrap ◌*ℤ◌ since run_metadata new_backup_metadata set_backup_info
    set_retention add_file prepared
all_fresh = refl

-- No backup is foreign to its own ID.
own_unforeign : (m : BackupMetadata) (file : Str) → is_foreign m.id file m ≡ false
own_unforeign m file = rw (str_eq_refl m.id) (and_false (has_str file m.files))
  where
    and_false : (b : Bool) → (b && false) ≡ false
    and_false true = refl
    and_false false = refl

told : (fs : List Str) → AllNames all_names fs
told [] = tt
told (f ∷ fs) = (refl, told fs)

all_told : (ds : List BackupMetadata) → All (λ d. AllNames all_names d.files) ds
all_told [] = tt
all_told (d ∷ ds) = (told d.files, all_told ds)

no_foreign :
    (suffix : Str)
    → count
        (is_foreign (generate_backup_id (day_time 12)) (generate_backup_id (day_time 12) ++ suffix))
        both
      ≡ 0
unfolding generate_backup_id time_name local_seconds local_days date_of has_str str_eq run_metadata
    new_backup_metadata set_backup_info set_retention add_file prepared
no_foreign suffix =
    let own =
      own_unforeign (run_metadata named_config world prepared)
        (generate_backup_id (day_time 12) ++ suffix) in
    rw own refl

run_backup_kept_example :
    let (s, g) =
      run_backup local two_codec tools hook named_config world
        (insertion stamp)
        cron
        (day_time 12)
        (day_time 12)
        (new_scheduler (bytes "0 2 * * *"), engine) in
    (content_at slashes (insertion modified_at) base g.storage prepared.path ≡ some (bytes "dump"))
    × (g.last_error ≡ none)
    × (g.last_run ≡ day_time 12)
unfolding insertion_sort run_metadata new_backup_metadata set_backup_info set_retention add_file
    prepared generate_backup_id engine_policy
run_backup_kept_example =
    run_backup_kept local two_codec tools hook named_config world (insertion stamp) cron
      (day_time 12) (day_time 12) (new_scheduler (bytes "0 2 * * *")) engine prepared made runs_well
      IsSound all_names (content_at slashes (insertion modified_at) base) local-IsMap
      (λ v suffix listed. refl) disk-IsSound (run_metadata named_config world prepared).id refl both
      (run_metadata named_config world prepared) lists_both refl (Memᴰ.head refl) all_fresh
      no_foreign (all_told _)
