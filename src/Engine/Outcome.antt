-- ===== src/Engine/Outcome.antt =====
-- What a run of internal/backup/engine.go leaves behind on its error paths and on its success.
use datasaver.Base.{
  Str, bytes, ◌++◌, Option, none, some, err, ◌≡◌, ◌≢◌, inl, inr, arith, Result-cases,
}
use datasaver.Config.{Config}
use datasaver.Notify.{Notifier, notify_success, notify_failure}
use datasaver.Storage.{Backend}
use datasaver.Validator.{Tools}
use datasaver.Engine.{Codec}
use datasaver.Engine.Run.{Engine, BackupResult, World, prepare, run, started}

-- A failure before the dump is stored keeps the ID of the run.
prepare-id :
    (cfg : Config) (w : World) (r : BackupResult)
    → prepare cfg w ≡ err r
    → r.id ≡ (started cfg w).id
unfolding prepare
prepare-id cfg w r h = ground arith

prepare-error :
    (cfg : Config) (w : World) (r : BackupResult) → prepare cfg w ≡ err r → r.error ≢ none
unfolding prepare
prepare-error cfg w r h = ground arith

module _ (b : Backend) (k : Codec) (t : Tools) (notifier : Option Notifier) (cfg : Config)
    (w : World) (g : Engine b) where
  -- A run that returns an error keeps it as the last error and in its result, leaves the time of
  -- the last run, and posts one notification, of the failure.
  pub run_failed :
      (e : Str)
      → (run b k t notifier cfg w g).1 ≡ some e
      → let after = (run b k t notifier cfg w g).2 in
        (after.last_error ≡ some e)
        × (after.last_run ≡ g.last_run)
        × ((run b k t notifier cfg w g).0.error ≡ some e)
        × (after.posted ≡ g.posted ++ notify_failure notifier w.notified (started cfg w).id e)
  unfolding run
  run_failed e h = elim (Result-cases (prepare cfg w)) [
    | inr (r, failed) ↦ ground (arith, failed, prepare-id cfg w r failed)
    | inl (p, made) ↦ ground (arith, made)
  ]

  -- A run that returns no error clears the last error, sets the time of the last run and ends with
  -- the notification of a success. Behind a verification that failed this follows a notification of
  -- the failure.
  pub run_succeeded :
      (run b k t notifier cfg w g).1 ≡ none
      → let after = (run b k t notifier cfg w g).2 in
        let r = (run b k t notifier cfg w g).0 in
        (after.last_error ≡ none)
        × (after.last_run ≡ w.start)
        × (after.posted
            ≡ (elim r.verify_error [
              | none ↦ g.posted
              | some e ↦
                  g.posted
                  ++ notify_failure notifier w.notified r.id
                      (bytes "backup verification failed: " ++ e)
            ])
              ++ notify_success notifier w.notified r.id r.size r.duration)
  unfolding run
  run_succeeded h = elim (Result-cases (prepare cfg w)) [
    | inr (r, failed) ↦ absurd (prepare-error cfg w r failed (ground (arith, failed)))
    | inl (p, made) ↦ ground (arith, made)
  ]
