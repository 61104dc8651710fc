-- ===== src/Status/Health.antt =====
-- What the /health endpoint of cmd/datasaver/main.go answers after a run of the backup engine.
use datasaver.Base.{
  Str, bytes, ◌++◌, Option, none, some, ◌≡◌, ◌↔◌, ◌≢◌, refl, arith, sym, ◌∙◌, Option-cases, inl,
  inr,
}
use mathlib.Core.List.{Memᴰ}
use mathlib.Core.List.Memᴰ
use datasaver.Clock.{is_zero}
use datasaver.Clock.Format.{rfc3339}
use datasaver.Config.{Config}
use datasaver.Notify.{Notifier}
use datasaver.Storage.{Backend}
use datasaver.Validator.{Tools}
use datasaver.Engine.{Codec}
use datasaver.Engine.Run.{Engine, World, run}
use datasaver.Engine.Outcome.{run_failed, run_succeeded}
use datasaver.Scheduler.{Scheduler}
use datasaver.Status.{health_handler, line_unless}

module _ {b : Backend} (g : Engine b) (s : Scheduler) where
  failed_status : (e : Str) → g.last_error ≡ some e → (health_handler g s).status ≡ 503
  unfolding health_handler
  failed_status e h = rw h refl

  fine_status : g.last_error ≡ none → (health_handler g s).status ≡ 200
  unfolding health_handler
  fine_status h = rw h refl

  failed_line :
      (e : Str)
      → g.last_error ≡ some e
      → Memᴰ (bytes "last_error: " ++ e) (health_handler g s).lines
  unfolding health_handler
  failed_line e h = rw h (
      Memᴰ.tail (
        Memᴰ.append_right
          (line_unless (is_zero g.last_run) (bytes "last_backup: " ++ rfc3339 g.last_run))
          (Memᴰ.head refl)))

module _ (b : Backend) (k : Codec) (t : Tools) (notifier : Option Notifier) (cfg : Config)
    (w : World) (g : Engine b) where
  -- After a run the endpoint answers 503 exactly if the run returned an error. It then prints that
  -- error. Otherwise it answers 200.
  pub health_handler-run :
      (s : Scheduler)
      → let (_, error, after) = run b k t notifier cfg w g in
        (((health_handler after s).status ≡ 503) ↔ (error ≢ none))
        × (((health_handler after s).status ≡ 200) ↔ (error ≡ none))
        × ((e : Str)
            → error ≡ some e
            → Memᴰ (bytes "last_error: " ++ e) (health_handler after s).lines)
  health_handler-run s =
      let after = (run b k t notifier cfg w g).2 in
      elim (Option-cases (run b k t notifier cfg w g).1) [
        | inl none_returned ↦
            let status =
              fine_status after s (run_succeeded b k t notifier cfg w g none_returned).0 in
            (
              (
                (λ bad. absurd (ground (arith, status, bad))),
                λ some_returned. absurd (some_returned none_returned),
              ),
              ((λ _. none_returned), λ _. status),
              λ e returned. absurd (ground (arith, none_returned, returned)),
            )
        | inr (e, returned) ↦
            let last = (run_failed b k t notifier cfg w g e returned).0 in
            let status = failed_status after s e last in
            (
              ((λ _ empty. absurd (ground (arith, returned, empty))), λ _. status),
              (
                (λ fine. absurd (ground (arith, status, fine))),
                λ empty. absurd (ground (arith, returned, empty)),
              ),
              λ e' same. failed_line after s e' (last ∙ sym returned ∙ same),
            )
      ]
