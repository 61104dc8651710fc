-- ===== src/Commands/Monitor.antt =====
-- alertMonitor of cmd/datasaver/main.go: its loop over the ticks, until the context is cancelled.
use datasaver.Base.{List, [], ◌∷◌, ◌++◌, Option, ◌≡◌, refl, ap}
use datasaver.Clock.{Time}
use datasaver.Config.{Config}
use datasaver.Metrics.{Metrics, set_storage_used}
use datasaver.Notify.{Notifier, WebhookPayload}
use datasaver.Storage.{Backend}
use datasaver.Engine.{Codec}
use datasaver.Engine.Run.{Engine}
use datasaver.Status.{alert_tick}

-- What the select receives: the end of the context, or a tick, at a time and with the engine of the
-- scheduler as it is then.
pub data Event (b : Backend) : Type 0 where
  cancelled : Event b
  ticks : Time → Engine b → Event b

module _ (b : Backend) (k : Codec) (notifier : Option Notifier) (cfg : Config) where
  unfoldable pub alert_monitor : List (Event b) → Metrics → Metrics × List WebhookPayload
  unfolding alert_tick set_storage_used
  alert_monitor [] m = (m, [])
  alert_monitor (cancelled ∷ events) m = (m, [])
  alert_monitor (ticks now g ∷ events) m =
      let (used, posted) = alert_tick b k notifier cfg now g in
      let (m', rest) = alert_monitor events (set_storage_used used m) in (m', posted ++ rest)

  -- Behind the end of the context nothing is recorded and nothing is posted.
  pub alert_monitor-cancelled :
      (events later : List (Event b)) (m : Metrics)
      → alert_monitor (events ++ cancelled ∷ later) m ≡ alert_monitor events m
  unfolding alert_monitor
  alert_monitor-cancelled [] later m = refl
  alert_monitor-cancelled (cancelled ∷ events) later m = refl
  alert_monitor-cancelled (ticks now g ∷ events) later m =
      ap
        (λ (r : Metrics × List WebhookPayload). (r.0, (alert_tick b k notifier cfg now g).1 ++ r.1))
        (alert_monitor-cancelled events later
          (set_storage_used (alert_tick b k notifier cfg now g).0 m))
