-- ===== src/Engine/Run.antt =====
-- NewEngine, Run and handleBackupError of internal/backup/engine.go.
use datasaver.Base.{
  Bool, true, false, Str, bytes, List, [], ◌++◌, Option, none, some, if◌then◌else◌, str_eq, length,
  Result, ok, err, map_err, ◌>>=◌,
}
use datasaver.Base.Int.{ℤ, pos}
use datasaver.Clock.{Time}
use datasaver.Config.{Config, is_sqlite}
use datasaver.Driver.{Driver, DriverConfig, new_driver, driver_type}
use datasaver.Metadata.{
  BackupMetadata, new_backup_metadata, set_backup_info, set_retention, add_file, generate_backup_id,
}
use datasaver.Notify.{Notifier, WebhookPayload, notify_success, notify_failure}
use datasaver.Rotation.Policy.{Policy, new_policy}
use datasaver.Rotation.Gfs.{get_retention_info}
use datasaver.Storage.{Backend}
use datasaver.Validator.{Tools, meta_suffix, verify_restore_integrity}
use datasaver.Engine.{Codec}

-- The fields of an Engine that change, the storage, and the payloads that were posted.
pub record Engine (b : Backend) : Type 0 where
  pub storage : b.State
  pub last_run : Time
  pub last_error : Option Str
  pub posted : List WebhookPayload

pub record BackupResult : Type 0 where
  pub id : Str
  pub timestamp : Time
  pub size : ℤ
  pub compressed_size : ℤ
  pub duration : ℤ
  pub checksum : Str
  pub verified : Bool
  pub verify_error : Option Str
  pub error : Option Str

-- What a run meets outside the repository: the clock, the database driver, the temporary
-- directory, gzip and SHA-256. A failing call gives the text of its error.
pub record World : Type 0 where
  pub start : Time
  pub created : Time
  pub notified : Time
  pub duration : ℤ
  pub connect : Driver → Result Str (Unit {0})
  pub version : Driver → Result Str Str
  pub mkdir_temp : Result Str (Unit {0})
  pub create_dump : Result Str (Unit {0})
  pub dump : Driver → Result Str Str
  pub stat_dump : Result Str (Unit {0})
  pub compress : Str → Result Str Str
  pub checksum : Str → Result Str Str
  pub open_final : Result Str (Unit {0})

-- The value, or the one that is used where the error is only logged.
abbrev pub value_or : Str → Result Str Str → Str
value_or d (ok v) = v
value_or d (err e) = d

unfoldable pub driver_config : Config → DriverConfig
driver_config c = record {
  type = c.database.type;
  host = c.database.host;
  port = c.database.port;
  name = c.database.name;
  user = c.database.user;
  password = c.database.password;
  url = c.database.url;
  path = c.database.path;
}

unfoldable pub engine_policy : Config → Policy
unfolding new_policy
engine_policy c =
    new_policy c.retention.daily c.retention.weekly c.retention.monthly c.retention.max_age_days

-- The dump that a run has made before it is stored.
pub record Prepared : Type 0 where
  pub driver : Driver
  pub version : Str
  pub path : Str
  pub text : Str
  pub size : ℤ
  pub compressed_size : ℤ
  pub checksum : Str

module _ (cfg : Config) (w : World) where
  abbrev pub started : BackupResult
  started = record {
    id = generate_backup_id w.start;
    timestamp = w.start;
    size = pos 0;
    compressed_size = pos 0;
    duration = pos 0;
    checksum = [];
    verified = false;
    verify_error = none;
    error = none;
  }

  -- result.Error = fmt.Errorf("…: %w", err) on the result so far.
  abbrev pub failing : {A : Type 0} → BackupResult → Str → Result Str A → Result BackupResult A
  failing r message = map_err (λ e. record r { error = some (message ++ e) })

  unfoldable pub dump_path : Str
  dump_path = generate_backup_id w.start ++ (if is_sqlite cfg then bytes ".sql" else bytes ".dump")

  -- Up to the dump file and its size.
  unfoldable pub make_dump : Result BackupResult (Driver × Str × Str)
  make_dump = do
    driver ←
        failing started (bytes "failed to create database driver: ")
          (new_driver (driver_config cfg))
    failing started (bytes "failed to connect to database: ") (w.connect driver) >>= λ _. do
      let version = value_or (bytes "unknown") (w.version driver)
      failing started (bytes "failed to create temp directory: ") w.mkdir_temp >>= λ _.
          failing started (bytes "failed to create dump file: ") w.create_dump >>= λ _. do
            text ← failing started (bytes "database dump failed: ") (w.dump driver)
            failing started (bytes "failed to stat dump file: ") w.stat_dump >>= λ _.
                ok (driver, version, text)

  -- The switch on the compression, the checksum and the file that is to be stored.
  unfoldable pub compressed : Str → Result Str (Str × Str)
  unfolding dump_path
  compressed text =
      if str_eq cfg.compression (bytes "gzip")
      then (w.compress text >>= λ packed. ok (dump_path ++ bytes ".gz", packed))
      else ok (dump_path, text)

  unfoldable pub prepare : Result BackupResult Prepared
  unfolding make_dump compressed
  prepare = do
    (driver, version, text) ← make_dump
    let size = pos (length text)
    let sized = record started { size = size }
    (path, final) ← failing sized (bytes "compression failed: ") (compressed text)
    let final_size = pos (length final)
    let checksum = value_or [] (w.checksum final)
    let summed = record sized { compressed_size = final_size; checksum = checksum }
    failing summed (bytes "failed to open backup file: ") w.open_final >>= λ _. ok (record {
      driver = driver;
      version = version;
      path = path;
      text = final;
      size = size;
      compressed_size = final_size;
      checksum = checksum;
    })

  -- The result once the dump is prepared.
  abbrev pub prepared_result : Prepared → BackupResult
  prepared_result p = record started {
    size = p.size;
    compressed_size = p.compressed_size;
    checksum = p.checksum;
  }

  -- The metadata as it is serialized, before the name of the metadata file is added.
  unfoldable pub run_metadata : Prepared → BackupMetadata
  run_metadata p =
      let db_name = if str_eq cfg.database.name [] then cfg.database.path else cfg.database.name in
      let db_host = if is_sqlite cfg then bytes "local" else cfg.database.host in
      let m =
        new_backup_metadata w.created (generate_backup_id w.start) db_name db_host p.version in
      let m1 = record m {
        backup = record m.backup { method = driver_type p.driver; compression = cfg.compression };
      } in
      let m2 = set_backup_info p.size p.compressed_size w.duration p.checksum m1 in
      let (keep_until, policy) = get_retention_info (engine_policy cfg) w.start in
      let m3 = record (set_retention keep_until policy m2) { type = policy } in add_file p.path m3

module _ (b : Backend) (k : Codec) (t : Tools) (notifier : Option Notifier) (cfg : Config)
    (w : World) where
  unfoldable pub handle_backup_error : BackupResult → Str → Engine b → Engine b
  handle_backup_error r e g = record g {
    last_error = some e;
    posted = g.posted ++ notify_failure notifier w.notified r.id e;
  }

  -- The metadata file. That it cannot be made or written is logged and passed over. Also gives the
  -- metadata with the name of the file added.
  unfoldable pub write_metadata : BackupMetadata → Engine b → BackupMetadata × Engine b
  write_metadata m g =
      let path = m.id ++ meta_suffix in
      elim (k.to_json m) [
        | err e ↦ (m, g)
        | ok text ↦ (add_file path m, record g { storage = (b.write path (ok text) g.storage).1 })
      ]

  unfoldable pub verify : BackupMetadata → BackupResult → Engine b → BackupResult × Engine b
  verify m r g =
      if cfg.backup.verify_after_backup
      then (elim (verify_restore_integrity b t cfg.database.type m g.storage) [
        | ok u ↦ (record r { verified = true }, g)
        | err e ↦ (
          record r { verify_error = some e },
          record g {
            posted =
                g.posted
                ++ notify_failure notifier w.notified r.id
                    (bytes "backup verification failed: " ++ e);
          },
        )
      ])
      else (r, g)

  -- From the stored backup file to the end of Run.
  unfoldable pub complete : Prepared → BackupResult → Engine b → BackupResult × Engine b
  unfolding write_metadata verify
  complete p r g =
      let (m, g1) = write_metadata (run_metadata cfg w p) g in
      let (r', g2) = verify m (record r { duration = w.duration }) g1 in
      (
        r',
        record g2 {
          last_run = w.start;
          last_error = none;
          posted = g2.posted ++ notify_success notifier w.notified r'.id r'.size r'.duration;
        },
      )

  -- Run: the result, the error and the engine.
  unfoldable pub run : Engine b → BackupResult × Option Str × Engine b
  unfolding complete handle_backup_error
  run g = elim (prepare cfg w) [
    | err r ↦ (r, r.error, handle_backup_error r (elim r.error [ none ↦ [] | some e ↦ e ]) g)
    | ok p ↦
        let r = prepared_result cfg w p in
        let (written, s) = b.write p.path (ok p.text) g.storage in
        let g' = record g { storage = s } in
        elim written [
          | err e ↦
              let text = bytes "failed to write backup to storage: " ++ k.storage_text e in
              (record r { error = some text }, some text, handle_backup_error r text g')
          | ok u ↦ let (r', done) = complete p r g' in (r', none, done)
        ]
  ]
