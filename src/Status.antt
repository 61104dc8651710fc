-- ===== src/Status.antt =====
-- What cmd/datasaver/main.go says of the state of the backups: the health command, the /health
-- endpoint, the alerts and the sizes that are printed.
pub mod Summary
pub mod Health
pub mod Alerts
pub mod Sizes
use datasaver.Base.{
  ℕ, zero, suc, ◌+◌, ◌*◌, ◌/◌, ◌%◌, ◌^◌, Bool, true, false, not, ◌&&◌, Str, bytes, List, [], ◌∷◌,
  ◌++◌, map, Option, none, some, if◌then◌else◌, ltb, leb, ◌==◌, length, Result, ok, err,
}
use datasaver.Base.Int.{ℤ, pos, negsuc, ltb_ℤ, ◌+ℤ◌, wrap}
use datasaver.Base.Decimal.{decimal}
use datasaver.Clock.{Time, zero_time, is_zero, is_after, since}
use datasaver.Clock.Format.{rfc3339}
use datasaver.Config.{Config, alert_duration}
use datasaver.Metadata.{BackupMetadata}
use datasaver.Notify.{Notifier, WebhookPayload, notify_alert}
use datasaver.Storage.{Backend, StorageError}
use datasaver.Engine.{Codec, list_backups}
use datasaver.Engine.Run.{Engine}
use datasaver.Scheduler.{Scheduler}

-- totalSize and lastBackup, in 64 bits.
pub record Totals : Type 0 where
  pub size : ℤ
  pub last : Time

abbrev pub no_totals : Totals
no_totals = record { size = pos 0; last = zero_time }

-- One round of the loop over the backups.
unfoldable pub add_backup : Totals → BackupMetadata → Totals
add_backup t b = record {
  size = wrap (t.size +ℤ b.backup.compressed_size);
  last = (if is_after b.timestamp t.last then b.timestamp else t.last);
}

unfoldable pub sum_up : Totals → List BackupMetadata → Totals
unfolding add_backup
sum_up t [] = t
sum_up t (b ∷ bs) = sum_up (add_backup t b) bs

abbrev pub no_backups_text : Str
no_backups_text = bytes "warning: no backups found"

abbrev pub overdue_text : Str
overdue_text = bytes "warning: backup overdue"

-- The status of the health command and of the tool backup_status.
unfoldable pub backups_status : Config → Time → List BackupMetadata → Str
unfolding sum_up
backups_status cfg now [] = no_backups_text
backups_status cfg now (b ∷ bs) =
    if ltb_ℤ (alert_duration cfg) (since now (sum_up no_totals (b ∷ bs)).last)
    then overdue_text
    else bytes "healthy"

-- What healthHandler answers.
pub record Response : Type 0 where
  pub status : ℕ
  pub lines : List Str

abbrev pub line_unless : Bool → Str → List Str
line_unless true l = []
line_unless false l = l ∷ []

unfoldable pub health_handler : {b : Backend} → Engine b → Scheduler → Response
health_handler g s =
    let last_run = line_unless (is_zero g.last_run) (bytes "last_backup: " ++ rfc3339 g.last_run) in
    let next_run = line_unless (is_zero s.next_run) (bytes "next_backup: " ++ rfc3339 s.next_run) in
    elim g.last_error [
      | none ↦ record { status = 200; lines = (bytes "status: healthy" ∷ last_run) ++ next_run }
      | some e ↦ record {
        status = 503;
        lines = (bytes "status: unhealthy" ∷ last_run) ++ (bytes "last_error: " ++ e) ∷ next_run;
      }
    ]

-- One tick of alertMonitor: the gauge of the storage, and the payloads that are posted. A listing
-- that fails counts as empty.
unfoldable pub alert_tick :
    (b : Backend) → Codec → Option Notifier → Config → Time → Engine b → ℤ × List WebhookPayload
unfolding sum_up
alert_tick b k notifier cfg now g =
    let backups : List BackupMetadata = elim (list_backups b k g.storage) [
      | err e ↦ []
      | ok ms ↦ ms
    ] in
    let used = (sum_up no_totals backups).size in
    let posted = notify_alert notifier now (
      bytes "No backup in "
      ++ (decimal cfg.monitoring.alert_after_hours
          ++ (bytes " hours. Last backup: " ++ rfc3339 g.last_run))) in
    (
      used,
      (if not (is_zero g.last_run) && ltb_ℤ (alert_duration cfg) (since now g.last_run)
          then posted
          else []),
    )

-- The quotient that is nearest, and the even one of two.
unfoldable pub round_half_even : ℕ → ℕ → ℕ
round_half_even n d =
    let q = n / d in
    let r = n % d in
    if ltb (2 * r) d then q else if ltb d (2 * r) then q + 1 else if q % 2 == 0 then q else q + 1

-- The distance of the float64 numbers around `n`: 1 up to 2^53, and then doubled. A size below 2^63
-- needs 10 doublings.
unfoldable pub spacing : ℕ → ℕ → ℕ → ℕ
spacing zero e n = e
spacing (suc fuel) e n =
    let wider = spacing fuel (2 * e) n in if ltb n (2 ^ 53 * e) then e else wider

unfoldable pub float64 : ℕ → ℕ
unfolding spacing round_half_even
float64 n = let e = spacing 11 1 n in round_half_even n e * e

abbrev pub two_decimals : ℕ → Str
two_decimals h = decimal (pos (h / 100)) ++ b'.' ∷ (b'0' + h / 10 % 10) ∷ (b'0' + h % 10) ∷ []

-- The hundredths of a unit that %.2f prints. The division by a power of two is exact.
unfoldable pub hundredths : ℕ → ℕ → ℕ
unfolding round_half_even float64
hundredths n unit = round_half_even (100 * float64 n) unit

unfoldable pub format_bytes : ℤ → Str
unfolding hundredths
format_bytes (negsuc n) = decimal (negsuc n) ++ bytes " B"
format_bytes (pos n) =
    if leb (2 ^ 30) n
    then two_decimals (hundredths n (2 ^ 30)) ++ bytes " GB"
    else if leb (2 ^ 20) n
    then two_decimals (hundredths n (2 ^ 20)) ++ bytes " MB"
    else if leb (2 ^ 10) n
    then two_decimals (hundredths n (2 ^ 10)) ++ bytes " KB"
    else decimal (pos n) ++ bytes " B"
