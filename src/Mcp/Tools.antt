-- ===== src/Mcp/Tools.antt =====
-- internal/mcp/tools/backup.go: the tools of the MCP server. getServerForRequest of
-- internal/mcp/handler.go gives every request a server, and so an engine, of its own.
pub mod Listing
pub mod Requests
use datasaver.Base.{
  ℕ, zero, suc, ◌/◌, Bool, true, false, Str, bytes, List, [], ◌∷◌, ◌++◌, map, Option, none, some,
  if◌then◌else◌, ltb, length, Result, ok, err, map_err, take,
}
use datasaver.Base.Int.{ℤ, pos, negsuc, ltb_ℤ}
use datasaver.Base.Decimal.{decimal}
use datasaver.Base.Sorting.{Sorter}
use datasaver.Clock.{Time, zero_time, is_zero}
use datasaver.Clock.Format.{rfc3339}
use datasaver.Config.{Config}
use datasaver.Mcp.Outputs.{
  BackupNowOutput, BackupItem, ListBackupsOutput, Value, text, number, seconds, GetBackupOutput,
  RestoreBackupOutput, BackupStatusOutput, CleanupOutput, VerifyBackupOutput,
}
use datasaver.Metadata.{BackupMetadata}
use datasaver.Notify.{Notifier, milliseconds}
use datasaver.Restore
use datasaver.Restore.{RestoreOptions, restore}
use datasaver.Rotation.Gfs.{stamp}
use datasaver.Storage.{Backend}
use datasaver.Validator.{Tools, ValidationResult, validate}
use datasaver.Engine.{Codec, list_backups, get_backup, cleanup}
use datasaver.Engine.Run.{Engine, BackupResult, World, run, engine_policy}
use datasaver.Status.{no_totals, sum_up, backups_status}

-- NewEngine: the engine of a request, over the storage that all share.
unfoldable pub new_engine : {b : Backend} → b.State → Engine b
new_engine s = record { storage = s; last_run = zero_time; last_error = none; posted = [] }

unfoldable pub item_of : BackupMetadata → BackupItem
item_of m = record {
  id = m.id;
  timestamp = rfc3339 m.timestamp;
  database = m.database.name;
  size_bytes = m.backup.size_bytes;
  compressed_size = m.backup.compressed_size;
  type = m.type;
  checksum = m.backup.checksum;
}

-- A limit that is not positive stands for 20.
unfoldable pub effective_limit : ℤ → ℕ
effective_limit (pos zero) = 20
effective_limit (pos (suc n)) = suc n
effective_limit (negsuc n) = 20

-- The list, cut to the limit.
unfoldable pub apply_limit : ℕ → List BackupMetadata → List BackupMetadata
apply_limit limit ms = if ltb limit (length ms) then take limit ms else ms

unfoldable pub details_of : BackupMetadata → GetBackupOutput
details_of m = record {
  id = m.id;
  timestamp = rfc3339 m.timestamp;
  type = m.type;
  database =
      (bytes "name", text m.database.name)
      ∷ (bytes "host", text m.database.host)
      ∷ (bytes "version", text m.database.version)
      ∷ [];
  backup =
      (bytes "method", text m.backup.method)
      ∷ (bytes "format", text m.backup.format)
      ∷ (bytes "compression", text m.backup.compression)
      ∷ (bytes "size_bytes", number m.backup.size_bytes)
      ∷ (bytes "compressed_size", number m.backup.compressed_size)
      ∷ (bytes "duration_s", seconds m.backup.duration)
      ∷ (bytes "checksum", text m.backup.checksum)
      ∷ [];
  files = m.files;
  retention =
      (bytes "keep_until", text (rfc3339 m.retention.keep_until))
      ∷ (bytes "policy", text m.retention.policy)
      ∷ [];
}

abbrev pub time_text : Time → Str
time_text t = if is_zero t then [] else rfc3339 t

abbrev pub error_text : Option Str → Str
error_text none = []
error_text (some e) = e

module _ (b : Backend) (k : Codec) where
  unfoldable pub backup_now :
      Tools → Option Notifier → Config → World → Engine b → Result Str BackupNowOutput × Engine b
  backup_now t notifier cfg w g =
      let (r, error, g') = run b k t notifier cfg w g in
      elim error [
        | some e ↦ (err e, g')
        | none ↦ (
          ok (record {
            backup_id = r.id;
            timestamp = rfc3339 r.timestamp;
            size_bytes = r.size;
            compressed_size = r.compressed_size;
            duration_ms = milliseconds r.duration;
            checksum = r.checksum;
          }),
          g',
        )
      ]

  unfoldable pub list_backups_tool : Sorter stamp → ℤ → Engine b → Result Str ListBackupsOutput
  unfolding item_of effective_limit apply_limit
  list_backups_tool sorter limit g = elim (list_backups b k g.storage) [
    | err e ↦ err (k.storage_text e)
    | ok ms ↦
        let items = map item_of (apply_limit (effective_limit limit) (sorter.sort ms)) in
        ok (record { count = length items; backups = items })
  ]

  unfoldable pub get_backup_tool : Str → Engine b → Result Str GetBackupOutput
  unfolding details_of
  get_backup_tool id g = elim (get_backup b k id g.storage) [
    | err e ↦ err e
    | ok m ↦ ok (details_of m)
  ]

  -- The handler behind the listing.
  unfoldable pub status_output : Config → Time → List BackupMetadata → Engine b → BackupStatusOutput
  unfolding sum_up
  status_output cfg now ms g =
      let totals = sum_up no_totals ms in
      record {
        status = backups_status cfg now ms;
        total_backups = length ms;
        storage_bytes = totals.size;
        last_backup = time_text totals.last;
        last_run = time_text g.last_run;
        last_error = error_text g.last_error;
      }

  unfoldable pub backup_status : Config → Time → Engine b → Result Str BackupStatusOutput
  unfolding status_output
  backup_status cfg now g = elim (list_backups b k g.storage) [
    | err e ↦ err (k.storage_text e)
    | ok ms ↦ ok (status_output cfg now ms g)
  ]

  unfoldable pub cleanup_backups :
      Sorter stamp → Config → Time → Engine b → Result Str CleanupOutput × Engine b
  cleanup_backups sorter cfg now g =
      let (deleted, s) = cleanup b k sorter (engine_policy cfg) now g.storage in
      let g' = record g { storage = s } in
      elim deleted [
        | err e ↦ (err e, g')
        | ok n ↦ (
          ok (record {
            deleted_count = n;
            message = bytes "Cleaned up " ++ (decimal (pos n) ++ bytes " old backups");
          }),
          g',
        )
      ]

  unfoldable pub verify_backup :
      Tools → (ℤ → ℕ → Str) → Str → Engine b → Result Str VerifyBackupOutput
  verify_backup t size_text id g = elim (get_backup b k id g.storage) [
    | err e ↦ err e
    | ok m ↦ elim (validate b t size_text m g.storage) [
      | err e ↦ err e
      | ok r ↦ ok (record {
        backup_id = id;
        valid = r.valid;
        file_exists = r.file_exists;
        size_match = r.size_match;
        checksum_ok = r.checksum_ok;
        errors = r.errors;
      })
    ]
  ]

module _ (b : Backend) (w : Restore.World) (cfg : Config) where
  -- The tool's options leave Force and VerifyChecksum at false.
  unfoldable pub restore_backup : Str → Str → Bool → Engine b → Result Str RestoreBackupOutput
  restore_backup id target_db dry_run g =
      let opts : RestoreOptions = record {
        backup_id = id;
        target_db = target_db;
        dry_run = dry_run;
        force = false;
        verify_checksum = false;
      } in
      let out = restore b w cfg opts g.storage in
      elim out.error [
        | some e ↦ err e
        | none ↦ ok (record {
          backup_id = out.result.backup_id;
          target_db = out.result.target_db;
          success = out.result.success;
          dry_run = dry_run;
        })
      ]
