-- ===== src/Tests/Run/Zipped.antt =====
-- Examples of the theorems on the files of a run: the disk is full when the gzip writer is closed.
use datasaver.Base.{true, bytes, [], ◌++◌, some, none, ok, ◌≡◌, refl, has_str, to_lower}
use datasaver.Base.Int.{pos}
use datasaver.Base.Sorting.Insertion.{insertion}
use datasaver.Config.{Config, is_sqlite}
use datasaver.Driver.{postgres, new_driver}
use datasaver.Metadata.{generate_backup_id}
use datasaver.Storage.Local.{modified_at, write}
use datasaver.Storage.Local.Laws.{IsSound, content_at}
use datasaver.Validator.{validate}
use datasaver.Engine.Run.{
  World, Prepared, started, driver_config, prepare, make_dump, run_metadata, run,
}
use datasaver.Files.{GzipWriter, compress_gzip, compressed_file, close_writer}
use datasaver.Files.Truncated.{run_zipped}
use datasaver.Tests.Data.{
  codec, slashes, base, local, all_names, local-IsMap, disk-IsSound, tools, named_config,
}
use datasaver.Tests.Run.{world, engine, hook}

-- Close fails behind two of its bytes.
abbrev full_disk : GzipWriter
full_disk = record {
  copied = λ text. bytes "gz";
  closed = λ text. text;
  copy_fails = λ text. none;
  close_fails = λ text. some (bytes "no space left on device", 2);
}

abbrev zip_config : Config
zip_config = record named_config { compression = bytes "gzip" }

abbrev zip_world : World
unfolding compress_gzip
zip_world = record world {
  compress = λ text. compressed_file (compress_gzip (ok (ok text)) (ok tt) full_disk);
}

abbrev zipped : Prepared
unfolding driver_config
zipped = record {
  driver = postgres (driver_config zip_config);
  version = bytes "16";
  path = (started zip_config zip_world).id ++ bytes ".dump.gz";
  text = bytes "gzdu";
  size = pos 4;
  compressed_size = pos 4;
  checksum = bytes "sum";
}

zips : prepare zip_config zip_world ≡ ok zipped
unfolding prepare new_driver has_str driver_config is_sqlite to_lower compress_gzip close_writer
    zip_world zipped generate_backup_id
zips = refl

stores : (run local codec tools hook zip_config zip_world engine).1 ≡ none
unfolding run prepare new_driver has_str driver_config write compress_gzip close_writer zip_world
stores = refl

run_zipped_example :
    let after = (run local codec tools hook zip_config zip_world engine).2.storage in
    (content_at slashes (insertion modified_at) base after zipped.path ≡ some (bytes "gzdu"))
    × (validate local tools (λ z n. []) (run_metadata zip_config zip_world zipped) after
        ≡ ok (record {
          backup_id = (started zip_config zip_world).id;
          valid = true;
          file_exists = true;
          size_match = true;
          checksum_ok = true;
          errors = [];
        }))
unfolding make_dump new_driver has_str driver_config zip_world zipped
run_zipped_example =
    run_zipped local codec tools hook zip_config zip_world engine zipped zips stores IsSound
      all_names (content_at slashes (insertion modified_at) base) local-IsMap disk-IsSound
      (run_metadata zip_config zip_world zipped).id refl refl refl full_disk
      (postgres (driver_config zip_config)) (bytes "16") (bytes "dump") (λ z n. []) refl refl refl
      refl (λ content. refl)
