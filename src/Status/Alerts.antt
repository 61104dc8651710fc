-- ===== src/Status/Alerts.antt =====
-- When alertMonitor of cmd/datasaver/main.go posts an alert.
use datasaver.Base.{true, false, Str, bytes, [], ◌++◌, Option, none, some, ◌≡◌, refl, ◌∙◌}
use datasaver.Base.Int.{ltb_ℤ}
use datasaver.Base.Decimal.{decimal}
use datasaver.Clock.{Time, is_zero, since, zero_time}
use datasaver.Clock.Format.{rfc3339}
use datasaver.Config.{Config, alert_duration}
use datasaver.Notify.{Notifier, notify_alert}
use datasaver.Storage.{Backend}
use datasaver.Validator.{Tools}
use datasaver.Engine.{Codec}
use datasaver.Engine.Run.{Engine, World, run}
use datasaver.Engine.Outcome.{run_failed, run_succeeded}
use datasaver.Status.{alert_tick}

module _ (b : Backend) (k : Codec) (t : Tools) (notifier : Option Notifier) (cfg : Config) where
  -- The engine after some runs that all return an error.
  pub data Failing (g : Engine b) : Engine b → Type 0 where
    untouched : Failing g g
    then_fails :
        {h : Engine b} (w : World) (e : Str)
        → Failing g h
        → (run b k t notifier cfg w h).1 ≡ some e
        → Failing g (run b k t notifier cfg w h).2

  Failing-last_run : {g h : Engine b} → Failing g h → h.last_run ≡ g.last_run
  Failing-last_run untouched = refl
  Failing-last_run (then_fails {h} w e before failed) =
      (run_failed b k t notifier cfg w h e failed).1 ∙ Failing-last_run before

  -- As long as no run has succeeded, no alert is posted, however long ago the start is.
  pub alert_tick_first :
      (now : Time) {g h : Engine b}
      → g.last_run ≡ zero_time
      → Failing g h
      → (alert_tick b k notifier cfg now h).1 ≡ []
  unfolding alert_tick is_zero
  alert_tick_first now fresh failing = rw (Failing-last_run failing, fresh) refl

  -- After a run that succeeded and others that failed, a tick posts one alert, which names the time
  -- of the successful run, if that time is longer ago than the alert duration.
  pub alert_tick_overdue :
      (now : Time) (w : World) (g : Engine b) {h : Engine b}
      → (run b k t notifier cfg w g).1 ≡ none
      → is_zero w.start ≡ false
      → Failing (run b k t notifier cfg w g).2 h
      → ltb_ℤ (alert_duration cfg) (since now w.start) ≡ true
      → (alert_tick b k notifier cfg now h).1
        ≡ notify_alert notifier now (
            bytes "No backup in "
            ++ (decimal cfg.monitoring.alert_after_hours
                ++ (bytes " hours. Last backup: " ++ rfc3339 w.start)))
  unfolding alert_tick
  alert_tick_overdue now w g ran start failing late =
      rw (Failing-last_run failing, (run_succeeded b k t notifier cfg w g ran).1, start, late) refl
