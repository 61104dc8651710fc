-- ===== src/Validator.antt =====
-- internal/backup/validator.go: the checks of a stored backup. The programs that it runs, and the
-- temporary files, are parameters.
pub mod Laws
use datasaver.Base.{
  ℕ, Bool, true, false, not, ◌&&◌, Str, bytes, List, [], ◌∷◌, ◌++◌, Option, none, some,
  if◌then◌else◌, str_eq, has_str, has_suffix, to_lower, Result, ok, err, ◌>>=◌, map_err, length,
}
use datasaver.Base.Int.{ℤ, pos, eqb_ℤ}
use datasaver.Metadata.{BackupMetadata}
use datasaver.Storage.{Backend, StorageError, Reader}

pub record ValidationResult : Type 0 where
  pub backup_id : Str
  pub valid : Bool
  pub file_exists : Bool
  pub size_match : Bool
  pub checksum_ok : Bool
  pub errors : List Str

abbrev pub meta_suffix : Str
meta_suffix = bytes ".meta.json"

-- The first file other than the metadata of this backup. An empty name counts as none.
unfoldable pub first_data_file : Str → List Str → Str
first_data_file meta [] = []
first_data_file meta (f ∷ fs) = if not (str_eq f meta) then f else first_data_file meta fs

-- findBackupFile: the first file that is no metadata file.
unfoldable pub find_backup_file : List Str → Str
unfolding has_suffix
find_backup_file [] = []
find_backup_file (f ∷ fs) = if not (has_suffix f meta_suffix) then f else find_backup_file fs

-- What the checks call: temporary files, SHA-256, gzip, the sqlite3 and pg_restore programs, and
-- the sqlite driver. A program gives its combined output, or an error with it.
pub record Tools : Type 0 where
  pub create_temp : Option Str
  pub storage_text : StorageError → Str
  pub checksum : Str → Result Str Str
  pub gunzip : Str → Result Str Str
  pub has_sqlite_cli : Bool
  pub sqlite_import : Str → Result Str (Unit {0})
  pub sqlite_check : Str → Result Str Str
  pub sqlite_open : Result Str (Unit {0})
  pub sqlite_exec : Str → Result Str (Unit {0})
  pub sqlite_query : Str → Result Str Str
  pub pg_list : Str → Result Str Str
  pub trim_space : Str → Str

module _ (b : Backend) (t : Tools) where
  -- createTempFile, up to the place of the file: it gives what the file holds.
  unfoldable pub create_temp_file : Reader → Result Str Str
  create_temp_file reader = elim t.create_temp [
    | some e ↦ err (bytes "failed to create temp file: " ++ e)
    | none ↦ map_err (λ e. bytes "failed to write temp file: " ++ e) reader
  ]

  -- The end of Validate: the checksum, on a result with the existence and the size filled in.
  unfoldable pub check_sum :
      BackupMetadata → Str → ValidationResult → b.State → Result Str ValidationResult
  unfolding create_temp_file
  check_sum m file r s =
      if str_eq m.backup.checksum []
      then ok (record r { checksum_ok = true })
      else elim (b.read file s) [
        | err e ↦ err (bytes "failed to read backup file: " ++ t.storage_text e)
        | ok reader ↦ elim (create_temp_file reader) [
          | err e ↦ err (bytes "failed to create temp file: " ++ e)
          | ok text ↦ elim (t.checksum text) [
            | err e ↦ ok r
            | ok sum ↦ ok (
                if str_eq sum m.backup.checksum then record r { checksum_ok = true } else record r {
                  valid = false;
                  errors = r.errors ++ bytes "checksum mismatch" ∷ [];
                })
          ]
        ]
      ]

  -- Validate. `size_text` is the message of a size that differs.
  unfoldable pub check_size :
      (ℤ → ℕ → Str) → BackupMetadata → ValidationResult → ℕ → ValidationResult
  check_size size_text m r n =
      if eqb_ℤ (pos n) m.backup.compressed_size then record r { size_match = true } else record r {
        valid = false;
        size_match = false;
        errors = r.errors ++ size_text m.backup.compressed_size n ∷ [];
      }

  unfoldable pub check_file :
      (ℤ → ℕ → Str)
      → BackupMetadata
      → Str
      → ValidationResult
      → b.State
      → Result Str ValidationResult
  unfolding check_sum check_size
  check_file size_text m file r s = elim (b.exists file s) [
    | err e ↦ err (bytes "failed to check file existence: " ++ t.storage_text e)
    | ok false ↦
        ok
          (record r { valid = false; errors = r.errors ++ bytes "backup file does not exist" ∷ [] })
    | ok true ↦ elim (b.size file s) [
      | err e ↦ err (bytes "failed to get file size: " ++ t.storage_text e)
      | ok n ↦ check_sum m file (check_size size_text m (record r { file_exists = true }) n) s
    ]
  ]

  unfoldable pub validate : (ℤ → ℕ → Str) → BackupMetadata → b.State → Result Str ValidationResult
  unfolding check_file first_data_file
  validate size_text m s =
      let r : ValidationResult = record {
        backup_id = m.id;
        valid = true;
        file_exists = false;
        size_match = false;
        checksum_ok = false;
        errors = [];
      } in
      let file = first_data_file (m.id ++ meta_suffix) m.files in
      elim m.files [
        | [] ↦ ok (record r { valid = false; errors = bytes "no files listed in metadata" ∷ [] })
        | f ∷ fs ↦
            if str_eq file []
            then ok (record r {
              valid = false;
              errors = bytes "backup file not found in metadata" ∷ [];
            })
            else check_file size_text m file r s
      ]

  unfoldable pub read_backup_content : Str → Bool → Result Str Str
  read_backup_content text true = t.gunzip text
  read_backup_content text false = ok text

  unfoldable pub verify_sqlite_restore : Str → Bool → Result Str (Unit {0})
  unfolding read_backup_content
  verify_sqlite_restore text compressed =
      map_err (λ e. bytes "failed to read backup: " ++ e) (read_backup_content text compressed)
      >>= λ content. elim t.create_temp [
        | some e ↦ err (bytes "failed to create temp database: " ++ e)
        | none ↦
            if t.has_sqlite_cli
            then (map_err (λ e. bytes "sqlite3 import failed: " ++ e) (t.sqlite_import content)
                >>= λ _.
                    map_err (λ e. bytes "integrity check failed: " ++ e) (t.sqlite_check content)
                    >>= λ out.
                        if str_eq (t.trim_space out) (bytes "ok")
                        then ok tt
                        else err (bytes "integrity check failed: " ++ out))
            else (map_err (λ e. bytes "failed to open temp database: " ++ e) t.sqlite_open >>= λ _.
                map_err (λ e. bytes "failed to execute SQL: " ++ e) (t.sqlite_exec content) >>= λ _.
                map_err (λ e. bytes "integrity check query failed: " ++ e) (t.sqlite_query content)
                >>= λ answer.
                    if str_eq answer (bytes "ok")
                    then ok tt
                    else err (bytes "integrity check failed: " ++ answer))
      ]

  -- The file that pg_restore lists: the backup, or what it decompresses to.
  unfoldable pub actual_archive : Str → Bool → Result Str Str
  actual_archive text false = ok text
  actual_archive text true = elim t.create_temp [
    | some e ↦ err (bytes "failed to create temp file: " ++ e)
    | none ↦ map_err (λ e. bytes "failed to decompress: " ++ e) (t.gunzip text)
  ]

  unfoldable pub verify_postgres_restore : Str → Bool → Result Str (Unit {0})
  unfolding actual_archive
  verify_postgres_restore text compressed = actual_archive text compressed >>= λ archive.
      map_err (λ e. bytes "pg_restore validation failed: " ++ e) (t.pg_list archive) >>= λ out.
      if str_eq out [] then err (bytes "backup appears to be empty") else ok tt

  unfoldable pub verify_restore_integrity : Str → BackupMetadata → b.State → Result Str (Unit {0})
  unfolding find_backup_file create_temp_file verify_sqlite_restore verify_postgres_restore
  verify_restore_integrity db_type m s =
      let file = find_backup_file m.files in
      if str_eq file []
      then err (bytes "no backup file found in metadata")
      else elim (b.read file s) [
        | err e ↦ err (bytes "failed to read backup: " ++ t.storage_text e)
        | ok reader ↦ create_temp_file reader >>= λ text.
            let compressed = has_suffix file (bytes ".gz") in
            if has_str (to_lower db_type) (bytes "sqlite" ∷ bytes "sqlite3" ∷ [])
            then verify_sqlite_restore text compressed
            else if has_str (to_lower db_type)
                (bytes "postgres" ∷ bytes "postgresql" ∷ bytes "pg" ∷ [] ∷ [])
            then verify_postgres_restore text compressed
            else err (bytes "unsupported database type: " ++ db_type)
      ]
