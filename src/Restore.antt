-- ===== src/Restore.antt =====
-- internal/restore/engine.go: a restore from a stored backup.
pub mod Safety
use datasaver.Base.{
  ℕ, min, Bool, true, false, not, ◌&&◌, ◌||◌, Str, bytes, List, [], ◌∷◌, ◌++◌, Option, none, some,
  if◌then◌else◌, str_eq, has_suffix, trim_prefix, Result, ok, err, map_err, ◌>>=◌,
}
use datasaver.Base.Atoi.{unsigned}
use datasaver.Base.Int.{ℤ, pos, eqb_ℤ}
use datasaver.Config.{Config}
use datasaver.Connection.{DumpOptions}
use datasaver.Metadata.{BackupMetadata}
use datasaver.Storage.{Backend, StorageError, Reader}
use datasaver.Validator.{find_backup_file}

pub record RestoreOptions : Type 0 where
  pub backup_id : Str
  pub target_db : Str
  pub dry_run : Bool
  pub force : Bool
  pub verify_checksum : Bool

pub record RestoreResult : Type 0 where
  pub backup_id : Str
  pub target_db : Str
  pub success : Bool
  pub checksum_valid : Bool
  pub error : Option Str

-- A parsed URL of net/url, by what its methods give.
pub record Url : Type 0 where
  pub hostname : Str
  pub port : Str
  pub path : Str
  pub username : Str
  pub password : Str

-- What a restore meets outside the repository. `pg_restore` is given the bytes of its file.
pub record World : Type 0 where
  pub parse : Str → Result Str BackupMetadata
  pub mkdir_temp : Result Str (Unit {0})
  pub storage_text : StorageError → Str
  pub gzip_header : Str → Result Str (Unit {0})
  pub gunzip : Str → Result Str Str
  pub create_local : Result Str (Unit {0})
  pub create_copy : Result Str (Unit {0})
  pub checksum : Str → Result Str Str
  pub pg_restore : Str → DumpOptions → Result Str (Unit {0})
  pub parse_url : Str → Option Url

-- strconv.Atoi of the port of a URL, which has digits only. Past the range it gives the largest
-- int along with its error.
unfoldable pub url_port : Str → ℤ
url_port s = elim (unsigned s) [ none ↦ pos 0 | some n ↦ pos (min n 9223372036854775807) ]

-- parseConnectionInfo, with the name of the database in the field for it.
unfoldable pub parse_connection_info : World → Config → DumpOptions
unfolding url_port
parse_connection_info w c =
    let plain : DumpOptions = record {
      format = [];
      compression = [];
      output_path = [];
      database = c.database.name;
      host = c.database.host;
      port = c.database.port;
      user = c.database.user;
      password = c.database.password;
    } in
    if str_eq c.database.url [] then plain else elim (w.parse_url c.database.url) [
      | none ↦ plain
      | some u ↦ record {
        format = [];
        compression = [];
        output_path = [];
        database = trim_prefix u.path (bytes "/");
        host = u.hostname;
        port = (if eqb_ℤ (url_port u.port) (pos 0) then pos 5432 else url_port u.port);
        user = u.username;
        password = u.password;
      }
    ]

-- A call of pg_restore: the bytes that it restores, and where to.
pub record Call : Type 0 where
  pub text : Str
  pub options : DumpOptions

pub record Outcome : Type 0 where
  pub result : RestoreResult
  pub error : Option Str
  pub calls : List Call

module _ (b : Backend) (w : World) (cfg : Config) (opts : RestoreOptions) (s : b.State) where
  abbrev pub started : RestoreResult
  started = record {
    backup_id = opts.backup_id;
    target_db = opts.target_db;
    success = false;
    checksum_valid = false;
    error = none;
  }

  abbrev pub fail : Str → Outcome
  fail e = record { result = record started { error = some e }; error = some e; calls = [] }

  unfoldable pub read_metadata : Result Str BackupMetadata
  read_metadata = elim (b.read (opts.backup_id ++ bytes ".meta.json") s) [
    | err e ↦ err (bytes "backup not found: " ++ opts.backup_id)
    | ok reader ↦ map_err (λ e. bytes "failed to read metadata: " ++ e) reader >>= λ text.
        map_err (λ e. bytes "failed to parse metadata: " ++ e) (w.parse text)
  ]

  -- The file under localPath: the stored bytes, or what they decompress to. A reader that fails
  -- does so at its first byte.
  unfoldable pub fetch : Str → Result Str Str
  fetch file = elim (b.read file s) [
    | err e ↦ err (bytes "failed to read backup file: " ++ w.storage_text e)
    | ok reader ↦
        (if has_suffix file (bytes ".gz")
          then (map_err (λ e. bytes "failed to create gzip reader: " ++ e) reader >>= λ packed.
              map_err (λ e. bytes "failed to create gzip reader: " ++ e) (w.gzip_header packed)
              >>= λ _.
                  map_err (λ e. bytes "failed to create local file: " ++ e) w.create_local >>= λ _.
                  map_err (λ e. bytes "failed to write local file: " ++ e) (w.gunzip packed))
          else (map_err (λ e. bytes "failed to create local file: " ++ e) w.create_local >>= λ _.
              map_err (λ e. bytes "failed to write local file: " ++ e) reader))
  ]

  -- The second read, and the comparison: whether the checksum was found valid.
  unfoldable pub verify : BackupMetadata → Str → Result Str Bool
  verify m file =
      if not (opts.verify_checksum || cfg.backup.verify_checksum)
      then ok false
      else if str_eq m.backup.checksum []
      then ok false
      else elim (b.read file s) [
        | err e ↦ err (bytes "failed to read backup for checksum: " ++ w.storage_text e)
        | ok reader ↦
            map_err (λ e. bytes "failed to create temp file for checksum: " ++ e) w.create_copy
            >>= λ _.
                map_err (λ e. bytes "failed to write temp file for checksum: " ++ e) reader
                >>= λ text.
                    map_err (λ e. bytes "failed to calculate checksum: " ++ e) (w.checksum text)
                    >>= λ actual.
                        if str_eq actual m.backup.checksum
                        then ok true
                        else err (
                            bytes "checksum mismatch: expected "
                            ++ (m.backup.checksum
                                ++ (bytes ", got "
                                    ++ (actual ++ bytes " - backup may be corrupted"))))
      ]

  unfoldable pub target : BackupMetadata → Str
  target m = if str_eq opts.target_db [] then m.database.name else opts.target_db

  -- The last part of Restore, behind the check: the call of pg_restore.
  unfoldable pub apply : BackupMetadata → Str → Bool → Outcome
  unfolding target
  apply m text checked =
      let call : Call = record {
        text = text;
        options = record (parse_connection_info w cfg) { database = target m };
      } in
      let r = record started { checksum_valid = checked } in
      elim (w.pg_restore text call.options) [
        | err e ↦
            let message = bytes "pg_restore failed: " ++ e in
            record {
              result = record r { error = some message };
              error = some message;
              calls = call ∷ [];
            }
        | ok u ↦ record {
          result = record r { success = true; target_db = target m };
          error = none;
          calls = call ∷ [];
        }
      ]

  unfoldable pub restore_file : BackupMetadata → Str → Outcome
  unfolding fetch verify apply
  restore_file m file = elim w.mkdir_temp [
    | err e ↦ fail (bytes "failed to create temp directory: " ++ e)
    | ok u ↦ elim (fetch file) [
      | err e ↦ fail e
      | ok text ↦ elim (verify m file) [ err e ↦ fail e | ok checked ↦ apply m text checked ]
    ]
  ]

  unfoldable pub restore : Outcome
  unfolding read_metadata restore_file
  restore = elim read_metadata [
    | err e ↦ fail e
    | ok m ↦
        let file = find_backup_file m.files in
        if str_eq file []
        then fail (bytes "no backup file found in metadata")
        else if opts.dry_run
        then record { result = record started { success = true }; error = none; calls = [] }
        else restore_file m file
  ]
