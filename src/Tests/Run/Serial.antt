-- ===== src/Tests/Run/Serial.antt =====
-- An example of the theorem on a run and a cleanup that overlap.
use datasaver.Base.{
  Str, bytes, List, [], ◌∷◌, ◌++◌, none, ok, ◌≡◌, refl, str_eq, has_str, has_prefix, trim_prefix,
}
use datasaver.Base.Sorting.Insertion.{insertion}
use datasaver.Metadata.{generate_backup_id}
use datasaver.Storage.Calls.{Call, writes, deletes, neither, first, second, exec_all}
use datasaver.Storage.Local.{modified_at, write, read}
use datasaver.Storage.Local.Laws.{content_at}
use datasaver.Storage.Local.{delete}
use datasaver.Validator.{meta_suffix}
use datasaver.Clock.{weekday}
use datasaver.Clock.Civil.{date_of}
use datasaver.Engine.{list_backups}
use datasaver.Engine.Run.{started, run_metadata, run, prepare, driver_config}
use datasaver.Driver.{new_driver}
use datasaver.Engine.Interleaved.{run-cleanup_serial}
use datasaver.Tests.Data.{
  slashes, base, local, local-IsMap, disk, disk-IsSound, tools, named_config,
}
use datasaver.Tests.Run.{world, engine, hook, prepared, made, run_codec}
use datasaver.Rotation.Policy.{Policy, classify_backup, is_sunday, is_first_of_month}
use datasaver.Rotation.Gfs.{stamp, determine_backups_to_delete}
use datasaver.Base.Int.{pos}
use datasaver.Base.Sorting.Insertion.{insertion_sort}
use datasaver.Tests.Data.{stored, two_daily, day_time}
use datasaver.Engine.{Codec, cleanup}
use datasaver.Engine.Run.{Engine}
use datasaver.Storage.Local.{list}
use datasaver.Base.{has_suffix, if◌then◌else◌, has_str, has_prefix, trim_prefix, str_eq}

abbrev meta_name : Str
meta_name = (started named_config world).id ++ meta_suffix

abbrev meta_text : Str
meta_text = (run_metadata named_config world prepared).id

-- The text "a" is the metadata of the backup on the disk, and every other text that of the run.
abbrev two_codec : Codec
two_codec = record run_codec {
  parse = λ text.
      ok (if str_eq text (bytes "a") then stored else run_metadata named_config world prepared);
}

abbrev keep_none : Policy
keep_none = record two_daily { keep_daily = pos 0 }

lists : list_backups local two_codec disk ≡ ok (stored ∷ [])
unfolding list_backups list has_prefix insertion_sort str_eq has_suffix read trim_prefix
lists = refl

-- The deletion comes between the two writes of the run.
abbrev mixed : List Call
mixed =
    writes prepared.path prepared.text ∷ deletes (bytes "a.dump") ∷ writes meta_name meta_text ∷ []

abbrev cleaned_disk : Engine local
cleaned_disk = record engine {
  storage = (cleanup local two_codec (insertion stamp) keep_none (day_time 11) disk).1;
}

runs : (run local two_codec tools hook named_config world cleaned_disk).1 ≡ none
unfolding run prepare new_driver has_str driver_config write cleanup list has_prefix
    determine_backups_to_delete insertion_sort has_suffix trim_prefix read classify_backup is_sunday
    weekday is_first_of_month date_of delete
runs = refl

run-cleanup_serial_example :
    content_at slashes (insertion modified_at) base (exec_all local mixed disk) (bytes "a.dump")
    ≡ content_at slashes
        (insertion modified_at)
        base
        (run local two_codec tools hook named_config world cleaned_disk).2.storage
        (bytes "a.dump")
unfolding str_eq has_str prepared generate_backup_id determine_backups_to_delete insertion_sort
    classify_backup is_sunday weekday is_first_of_month date_of
run-cleanup_serial_example =
    run-cleanup_serial local two_codec tools hook named_config world engine prepared made meta_text
      refl local-IsMap disk-IsSound refl refl (insertion stamp) keep_none (day_time 11)
      (stored ∷ []) mixed (bytes "a.dump") lists (first _ (second _ (first _ neither)))
      ((refl, tt), tt) refl refl refl runs
