-- ===== src/Mcp/Tools/Requests.antt =====
-- Requests to the MCP server: each has an engine of its own, and they share the storage.
use mathlib.Core.List.{Memᴰ}
use datasaver.Base.{
  Bool, true, Str, bytes, List, [], ◌++◌, Option, none, ok, ◌≡◌, ◌↔◌, refl, arith, length,
  Option-cases, inl, inr, Bool-cases, Result-cases,
}
use datasaver.Base.Int.{◌≤ℤ◌}
use datasaver.Clock.{Time, is_zero, since}
use datasaver.Config.{Config, alert_duration}
use datasaver.Metadata.{BackupMetadata}
use datasaver.Notify.{Notifier}
use datasaver.Storage.{Backend}
use datasaver.Storage.Laws.{IsMap}
use datasaver.Validator.{verify_restore_integrity, Tools, meta_suffix}
use datasaver.Engine.{Codec, list_backups}
use datasaver.Engine.Run.{
  BackupResult, prepared_result, complete, verify, Engine, World, Prepared, prepare, run,
  run_metadata, started,
}
use datasaver.Engine.Stored.{run_stored}
use datasaver.Status.Summary.{backups_status_iff}
use datasaver.Mcp.Outputs.{BackupNowOutput, BackupStatusOutput}
use datasaver.Mcp.Tools.{
  new_engine, details_of, backup_now, status_output, get_backup_tool, backup_status,
}

-- Where the listing succeeds, a request for backup_status counts the listed backups and is healthy
-- exactly if one of them is not longer ago than the alert duration. It never tells the last run nor
-- the last error, since its engine has not run.
pub backup_status-new_engine :
    (b : Backend) (k : Codec) (cfg : Config) (now : Time) (s : b.State) (ms : List BackupMetadata)
    → list_backups b k s ≡ ok ms
    → (out : BackupStatusOutput) × (backup_status b k cfg now (new_engine s) ≡ ok out)
      × (out.total_backups ≡ length ms)
      × ((out.status ≡ bytes "healthy")
          ↔ ((m : BackupMetadata) × Memᴰ m ms × (since now m.timestamp ≤ℤ alert_duration cfg)))
      × (out.last_run ≡ [])
      × (out.last_error ≡ [])
unfolding backup_status status_output new_engine is_zero
backup_status-new_engine b k cfg now s ms listed = (
  status_output b k cfg now ms (new_engine s),
  rw (backup_status, listed) refl,
  refl,
  backups_status_iff cfg now ms,
  refl,
  refl,
)

module _ (b : Backend) (k : Codec) (t : Tools) (notifier : Option Notifier) (cfg : Config)
    (w : World) (s : b.State) (p : Prepared) (made : prepare cfg w ≡ ok p) (Good : b.State → Type 0)
    (names : Str → Bool) (view : b.State → Str → Option Str) (law : IsMap b Good names view)
    (good : Good s) (text : Str) (json : k.to_json (run_metadata cfg w p) ≡ ok text)
    (name : names p.path ≡ true)
    (meta_name : names ((started cfg w).id ++ meta_suffix) ≡ true) where
  ran :
      (out : BackupNowOutput) (g : Engine b)
      → (backup_now b k t notifier cfg w g).0 ≡ ok out
      → ((run b k t notifier cfg w g).1 ≡ none)
        × (out.backup_id ≡ (run b k t notifier cfg w g).0.id)
        × ((backup_now b k t notifier cfg w g).1 ≡ (run b k t notifier cfg w g).2)
  unfolding backup_now
  ran out g answered = elim (Option-cases (run b k t notifier cfg w g).1) [
    | inr (e, failed) ↦ ground (arith, failed)
    | inl fine ↦ ground (arith, fine)
  ]

  verify-id :
      (m : BackupMetadata) (r : BackupResult) (g : Engine b)
      → (verify b k t notifier cfg w m r g).0.id ≡ r.id
  unfolding verify
  verify-id m r g = elim (Bool-cases cfg.backup.verify_after_backup) [
    | inr skips ↦ rw (skips, verify)
    | inl verifies ↦
        elim (Result-cases (verify_restore_integrity b t cfg.database.type m g.storage)) [
          | inl (u, fine) ↦ rw (verifies, fine, verify)
          | inr (e, bad) ↦ rw (verifies, bad, verify)
        ]
  ]

  complete-id :
      (r : BackupResult) (g : Engine b) → (complete b k t notifier cfg w p r g).0.id ≡ r.id
  unfolding complete
  complete-id r g = rw (complete, verify-id)

  run-id : (g : Engine b) → (run b k t notifier cfg w g).0.id ≡ (started cfg w).id
  unfolding run
  run-id g = elim (Result-cases (b.write p.path (ok p.text) g.storage).0) [
    | inl (u, written) ↦ rw (made, written, run) (complete-id (prepared_result cfg w p) _)
    | inr (e, refused) ↦ rw (made, refused, run)
  ]

  -- The ID that backup_now answers finds the metadata of its run in another request, if the backend
  -- is a map and the codec reads back what it wrote.
  pub get_backup-backup_now :
      (out : BackupNowOutput)
      → k.parse text ≡ ok (run_metadata cfg w p)
      → (backup_now b k t notifier cfg w (new_engine s)).0 ≡ ok out
      → get_backup_tool b k out.backup_id
          (new_engine (backup_now b k t notifier cfg w (new_engine s)).1.storage)
        ≡ ok (details_of (run_metadata cfg w p))
  unfolding get_backup_tool new_engine
  get_backup-backup_now out parses answered =
      let g = new_engine s in
      let (fine, id, after) = ran out g answered in
      let stored =
        run_stored b k t notifier cfg w g p made fine Good names view law good text json name
          meta_name parses in
      rw (id, run-id g, after) (rw (get_backup_tool, stored.1) refl)
