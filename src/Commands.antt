-- ===== src/Commands.antt =====
-- The commands of cmd/datasaver/main.go: what comes before each of them, and the lines that they
-- print. A command that fails prints what comes before the error.
pub mod Setup
pub mod Daemon
pub mod Discovery
pub mod Shutdown
pub mod Monitor
use datasaver.Base.{
  ℕ, zero, suc, ◌-◌, Bool, true, false, Str, bytes, List, [], ◌∷◌, ◌++◌, map, Option, none, some,
  if◌then◌else◌, ltb, length, Result, ok, err,
}
use datasaver.Base.Int.{ℤ, pos}
use datasaver.Base.Decimal.{decimal}
use datasaver.Base.Sorting.{Sorter}
use datasaver.Clock.{Time, is_zero}
use datasaver.Clock.Format.{date_text, minute_text, second_text}
use datasaver.Config.{Config}
use datasaver.Metadata.{BackupMetadata}
use datasaver.Notify.{Notifier}
use datasaver.Restore
use datasaver.Restore.{RestoreOptions, restore}
use datasaver.Rotation.Gfs.{stamp}
use datasaver.Storage.{Backend}
use datasaver.Validator.{Tools, validate}
use datasaver.Engine.{Codec, list_backups, get_backup, cleanup}
use datasaver.Engine.Run.{Engine, World, run, engine_policy}
use datasaver.Status.{no_totals, sum_up, backups_status, format_bytes, line_unless}

-- What a command prints, and its error.
pub record Output : Type 0 where
  pub lines : List Str
  pub error : Option Str

abbrev pub done : List Str → Output
done lines = record { lines = lines; error = none }

abbrev pub failed : Str → Output
failed e = record { lines = []; error = some e }

abbrev pub bool_text : Bool → Str
bool_text true = bytes "true"
bool_text false = bytes "false"

-- What the lines rely on of fmt, time and unicode/utf8: the number of runes of a text, and
-- Duration.Round to milliseconds with Duration.String.
pub record Texts : Type 0 where
  pub runes : Str → ℕ
  pub duration_text : ℤ → Str
  pub size_text : ℤ → ℕ → Str

abbrev pub spaces : ℕ → Str
spaces zero = []
spaces (suc n) = b' ' ∷ spaces n

module _ (x : Texts) where
  -- %-26s and its like: padded on the right to a number of runes.
  unfoldable pub padded : ℕ → Str → Str
  padded width s = s ++ spaces (width - x.runes s)

  unfoldable pub row : Str → Str → Str → Str → Str
  unfolding padded
  row id date size type =
      padded 26 id
      ++ (bytes " "
          ++ (padded 20 date ++ (bytes " " ++ (padded 12 size ++ (bytes " " ++ padded 8 type)))))

  unfoldable pub backup_row : BackupMetadata → Str
  unfolding row
  backup_row m =
      row m.id (date_text m.timestamp ++ (bytes " " ++ minute_text m.timestamp))
        (format_bytes m.backup.compressed_size) m.type

  module _ (b : Backend) (k : Codec) where
    unfoldable pub backup_cmd :
        Tools → Option Notifier → Config → World → Engine b → Output × Engine b
    backup_cmd t notifier cfg w g =
        let (r, error, g') = run b k t notifier cfg w g in
        elim error [
          | some e ↦ (failed e, g')
          | none ↦ (
            done (
                bytes "Backup completed successfully"
                ∷ (bytes "  ID: " ++ r.id)
                ∷ (bytes "  Size: " ++ format_bytes r.size)
                ∷ (bytes "  Compressed: " ++ format_bytes r.compressed_size)
                ∷ (bytes "  Duration: " ++ x.duration_text r.duration)
                ∷ []),
            g',
          )
        ]

    unfoldable pub list_lines : Sorter stamp → List BackupMetadata → List Str
    unfolding row backup_row
    list_lines sorter [] = bytes "No backups found" ∷ []
    list_lines sorter (m ∷ ms) =
        row (bytes "ID") (bytes "DATE") (bytes "SIZE") (bytes "TYPE")
        ∷ map backup_row (sorter.sort (m ∷ ms))

    unfoldable pub list_cmd : Sorter stamp → Engine b → Output
    unfolding list_lines
    list_cmd sorter g = elim (list_backups b k g.storage) [
      | err e ↦ failed (k.storage_text e)
      | ok ms ↦ done (list_lines sorter ms)
    ]

    unfoldable pub cleanup_cmd : Sorter stamp → Config → Time → Engine b → Output × Engine b
    cleanup_cmd sorter cfg now g =
        let (deleted, s) = cleanup b k sorter (engine_policy cfg) now g.storage in
        let g' = record g { storage = s } in
        elim deleted [
          | err e ↦ (failed e, g')
          | ok n ↦ (
            done (
                (bytes "Cleanup completed: " ++ (decimal (pos n) ++ bytes " backups deleted"))
                ∷ []),
            g',
          )
        ]

    unfoldable pub health_lines : Config → Time → List BackupMetadata → List Str
    unfolding sum_up
    health_lines cfg now ms =
        let totals = sum_up no_totals ms in
        ((bytes "Status: " ++ backups_status cfg now ms)
          ∷ line_unless (is_zero totals.last) (
              bytes "Last backup: "
              ++ (date_text totals.last ++ (bytes " " ++ second_text totals.last))))
        ++ (bytes "Total backups: " ++ decimal (pos (length ms)))
          ∷ (bytes "Storage used: " ++ format_bytes totals.size)
          ∷ []

    unfoldable pub health_cmd : Config → Time → Engine b → Output
    unfolding health_lines
    health_cmd cfg now g = elim (list_backups b k g.storage) [
      | err e ↦ failed (k.storage_text e)
      | ok ms ↦ done (health_lines cfg now ms)
    ]

    unfoldable pub verify_cmd : Tools → Str → Engine b → Output
    verify_cmd t id g = elim (get_backup b k id g.storage) [
      | err e ↦ failed e
      | ok m ↦ elim (validate b t x.size_text m g.storage) [
        | err e ↦ failed e
        | ok r ↦
            if r.valid
            then done (
                (bytes "Backup " ++ (id ++ bytes " is valid"))
                ∷ (bytes "  File exists: " ++ bool_text r.file_exists)
                ∷ (bytes "  Size match: " ++ bool_text r.size_match)
                ∷ (bytes "  Checksum OK: " ++ bool_text r.checksum_ok)
                ∷ [])
            else record {
              lines =
                  (bytes "Backup " ++ (id ++ bytes " is INVALID"))
                  ∷ map (λ e. bytes "  - " ++ e) r.errors;
              error = some (bytes "backup validation failed");
            }
      ]
    ]

  -- The options leave Force and VerifyChecksum at false.
  unfoldable pub restore_cmd :
      (b : Backend) → Restore.World → Config → (id target_db : Str) → Bool → b.State → Output
  restore_cmd b w cfg id target_db dry_run s =
      let opts : RestoreOptions = record {
        backup_id = id;
        target_db = target_db;
        dry_run = dry_run;
        force = false;
        verify_checksum = false;
      } in
      let out = restore b w cfg opts s in
      elim out.error [
        | some e ↦ failed e
        | none ↦
            if dry_run
            then done (bytes "Dry run completed - no changes made" ∷ [])
            else done (
                bytes "Restore completed successfully"
                ∷ (bytes "  Backup: " ++ out.result.backup_id)
                ∷ (bytes "  Target database: " ++ out.result.target_db)
                ∷ [])
      ]
