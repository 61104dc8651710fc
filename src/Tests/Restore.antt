-- ===== src/Tests/Restore.antt =====
-- Examples of the theorems on restores.
use datasaver.Base.{true, false, Str, bytes, [], ◌∷◌, none, ok, ◌≡◌, ◌≢◌, refl, arith, str_eq}
use datasaver.Metadata.{BackupMetadata}
use datasaver.Storage.Local.{read}
use datasaver.Validator.{find_backup_file}
use datasaver.Restore.{RestoreOptions, World, Call, read_metadata, restore, parse_connection_info}
use datasaver.Restore.Safety.{restore_checked}
use datasaver.Tests.Data.{local, disk, backup_of, named_config}

abbrev stored : BackupMetadata
stored = backup_of (bytes "a") 8 (bytes "a.dump" ∷ [])

abbrev world : World
world = record {
  parse = λ text. ok stored;
  mkdir_temp = ok tt;
  storage_text = λ e. e.op;
  gzip_header = λ text. ok tt;
  gunzip = λ text. ok text;
  create_local = ok tt;
  create_copy = ok tt;
  checksum = λ text. ok (bytes "sum");
  pg_restore = λ text options. ok tt;
  parse_url = λ text. none;
}

abbrev checking : RestoreOptions
checking = record {
  backup_id = bytes "a";
  target_db = bytes "copy";
  dry_run = false;
  force = false;
  verify_checksum = true;
}

abbrev dry : RestoreOptions
dry = record checking { dry_run = true }

abbrev expected : Call
expected = record {
  text = bytes "ok";
  options = record (parse_connection_info world named_config) { database = bytes "copy" };
}

reads_metadata : read_metadata local world named_config checking disk ≡ ok stored
unfolding read_metadata read str_eq
reads_metadata = refl

calls_once : (restore local world named_config checking disk).calls ≡ expected ∷ []
unfolding restore read str_eq find_backup_file
calls_once = refl

clean : (restore local world named_config checking disk).error ≡ none
unfolding restore read str_eq find_backup_file
clean = refl

has_sum : bytes "sum" ≢ []
has_sum e = ground arith

restore_checked_example :
    (text : Str) × (local.read (find_backup_file (bytes "a.dump" ∷ [])) disk ≡ ok (ok text))
    × (world.checksum text ≡ ok (bytes "sum"))
restore_checked_example =
    restore_checked local world named_config checking disk stored expected [] reads_metadata refl
      has_sum calls_once
