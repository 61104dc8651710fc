-- ===== src/Tests/Run/Interleaved.antt =====
-- Examples of the theorems on the calls of a run, and on what lists and checks them.
use mathlib.Core.List.{Mem}
use datasaver.Base.{
  true, Str, List, [], ◌∷◌, ◌++◌, some, ok, ◌≡◌, refl, take, str_eq, has_prefix, trim_prefix,
}
use datasaver.Base.Sorting.Insertion.{insertion}
use datasaver.Metadata.{BackupMetadata, generate_backup_id}
use datasaver.Storage.Calls.{writes, exec, exec_all}
use datasaver.Storage.Disk.{lookup, insert, found}
use datasaver.Storage.Local.{modified_at, write, read}
use datasaver.Storage.Local.Laws.{IsSound, content_at}
use datasaver.Storage.Local.Listing.{Relates, local_storage-IsListed}
use datasaver.Validator.{meta_suffix, validate}
use datasaver.Clock.{local_days}
use datasaver.Clock.Civil.{date_of}
use datasaver.Engine.{list_backups, get_backup}
use datasaver.Engine.Run.{started, run_metadata, run}
use datasaver.Engine.Stored.{run_listed}
use datasaver.Engine.Validated.{run_validates}
use datasaver.Engine.Interleaved.{run_interrupted}
use datasaver.Tests.Data.{
  slashes, base, local, all_names, local-IsMap, disk, disk-IsSound, tools, named_config,
}
use datasaver.Tests.Run.{world, engine, hook, prepared, made, run_codec, stores}
use datasaver.Base.{has_prefix, trim_prefix, str_eq}

abbrev meta_name : Str
meta_name = (started named_config world).id ++ meta_suffix

abbrev meta_text : Str
meta_text = (run_metadata named_config world prepared).id

slashes-Relates : Relates slashes base all_names
unfolding has_prefix trim_prefix
slashes-Relates = record {
  rel_under = λ full h. (_, refl);
  under_join = λ p n. refl;
  rel_join = λ p n. refl;
}

run_listed_example :
    (ms : List BackupMetadata) × (list_backups local run_codec
        (run local run_codec tools hook named_config world engine).2.storage
      ≡ ok ms)
    × Mem (run_metadata named_config world prepared) ms
run_listed_example =
    run_listed local run_codec tools hook named_config world engine prepared made stores IsSound
      all_names (content_at slashes (insertion modified_at) base) local-IsMap disk-IsSound meta_text
      refl refl refl refl
      (local_storage-IsListed slashes (insertion modified_at) base all_names slashes-Relates)
      (disk-IsSound, refl)

run_validates_example :
    validate local tools
      (λ z n. [])
      (run_metadata named_config world prepared)
      (run local run_codec tools hook named_config world engine).2.storage
    ≡ ok (record {
      backup_id = (started named_config world).id;
      valid = true;
      file_exists = true;
      size_match = true;
      checksum_ok = true;
      errors = [];
    })
run_validates_example =
    run_validates local run_codec tools hook named_config world engine prepared made stores IsSound
      all_names (content_at slashes (insertion modified_at) base) local-IsMap disk-IsSound meta_text
      refl refl refl (λ z n. []) refl (λ content. refl)

run_interrupted_example :
    content_at slashes
      (insertion modified_at)
      base
      (exec_all local
        (take 2 (writes prepared.path prepared.text ∷ writes meta_name meta_text ∷ []))
        disk)
      prepared.path
    ≡ some prepared.text
unfolding exec_all exec write read get_backup lookup insert found prepared generate_backup_id str_eq
    date_of local_days
run_interrupted_example =
    run_interrupted local run_codec tools hook named_config world engine prepared made meta_text
      refl local-IsMap disk-IsSound refl refl 2 (run_metadata named_config world prepared) refl refl
