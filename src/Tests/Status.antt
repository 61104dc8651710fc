-- ===== src/Tests/Status.antt =====
-- Examples of the theorems on the state of the backups: status, health endpoint and alerts.
use mathlib.Core.List.{Memᴰ}
use datasaver.Base.{has_str, Str, bytes, ◌++◌, some, none, ◌≡◌, ◌≢◌, ◌↔◌, refl}
use datasaver.Base.Decimal.{decimal}
use datasaver.Base.Int.{wrap, ◌*ℤ◌}
use datasaver.Clock.{since, is_zero}
use datasaver.Clock.Format.{rfc3339}
use datasaver.Config.{alert_duration}
use datasaver.Notify.{notify_alert}
use datasaver.Engine.Run.{Engine, run, prepare, driver_config}
use datasaver.Driver.{new_driver}
use datasaver.Scheduler.{new_scheduler}
use datasaver.Status.{health_handler, alert_tick}
use datasaver.Status.Health.{health_handler-run}
use datasaver.Status.Alerts.{Failing, alert_tick_overdue}
use datasaver.Tests.Data.{codec, local, tools, named_config, day_time}
use datasaver.Tests.Run.{world, broken, engine, hook, succeeds}

health_handler-run_example :
    let (_, error, after) = run local codec tools hook named_config broken engine in
    let s = new_scheduler (bytes "0 2 * * *") in
    (((health_handler after s).status ≡ 503) ↔ (error ≢ none))
    × (((health_handler after s).status ≡ 200) ↔ (error ≡ none))
    × ((e : Str) → error ≡ some e → Memᴰ (bytes "last_error: " ++ e) (health_handler after s).lines)
health_handler-run_example =
    health_handler-run local codec tools hook named_config broken engine
      (new_scheduler (bytes "0 2 * * *"))

abbrev pub ran : Engine local
ran = (run local codec tools hook named_config world engine).2

refused_again :
    (run local codec tools hook named_config broken ran).1
    ≡ some (bytes "failed to connect to database: refused")
unfolding run prepare new_driver has_str driver_config
refused_again = refl

-- After the run of day 12 the next one fails.
failed_once :
    Failing local codec tools hook named_config ran
      (run local codec tools hook named_config broken ran).2
failed_once =
    Failing.then_fails broken (bytes "failed to connect to database: refused") Failing.untouched
      refused_again

alert_tick_overdue_example :
    (alert_tick local codec hook named_config
      (day_time 15)
      (run local codec tools hook named_config broken ran).2).1
    ≡ notify_alert hook (day_time 15) (
        bytes "No backup in "
        ++ (decimal named_config.monitoring.alert_after_hours
            ++ (bytes " hours. Last backup: " ++ rfc3339 (day_time 12))))
unfolding is_zero since alert_duration wrap ◌*ℤ◌
alert_tick_overdue_example =
    alert_tick_overdue local codec tools hook named_config (day_time 15) world engine succeeds refl
      failed_once refl
