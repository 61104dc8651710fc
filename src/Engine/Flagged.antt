-- ===== src/Engine/Flagged.antt =====
-- The flag `verified` of the result of a run of internal/backup/engine.go.
use datasaver.Base.{
  Bool, true, false, Str, ◌++◌, Option, none, Result, ok, err, ◌≡◌, refl, ap, ◌∙◌, arith, inl, inr,
  Result-cases,
}
use datasaver.Config.{Config}
use datasaver.Metadata.{BackupMetadata, add_file}
use datasaver.Notify.{Notifier}
use datasaver.Storage.{Backend}
use datasaver.Validator.{Tools, meta_suffix, verify_restore_integrity}
use datasaver.Engine.{Codec}
use datasaver.Engine.Run.{
  Engine, World, BackupResult, Prepared, prepare, prepared_result, run_metadata, write_metadata,
  verify, complete, run, started,
}
use datasaver.Engine.Stored.{run_metadata-id, storage-run}

-- How a check ended.
abbrev pub passed : Result Str (Unit {0}) → Bool
passed (ok u) = true
passed (err e) = false

module _ (b : Backend) (k : Codec) (t : Tools) (notifier : Option Notifier) (cfg : Config)
    (w : World) (wanted : cfg.backup.verify_after_backup ≡ true) where
  verified-verify :
      (m : BackupMetadata) (r : BackupResult) (g : Engine b)
      → r.verified ≡ false
      → (verify b k t notifier cfg w m r g).0.verified
        ≡ passed (verify_restore_integrity b t cfg.database.type m g.storage)
  unfolding verify
  verified-verify m r g before =
      elim (Result-cases (verify_restore_integrity b t cfg.database.type m g.storage)) [
        | inl (u, fine) ↦ rw (wanted, fine, verify) refl
        | inr (e, bad) ↦ rw (wanted, bad, verify) before
      ]

  complete-verify :
      (p : Prepared) (r : BackupResult) (g : Engine b)
      → (complete b k t notifier cfg w p r g).0
        ≡ (verify b k t notifier cfg w
            (write_metadata b k t notifier cfg w (run_metadata cfg w p) g).0
            (record r { duration = w.duration })
            (write_metadata b k t notifier cfg w (run_metadata cfg w p) g).1).0
  unfolding complete
  complete-verify p r g = refl

  write_metadata-ok :
      (p : Prepared) (g : Engine b) (text : Str)
      → k.to_json (run_metadata cfg w p) ≡ ok text
      → write_metadata b k t notifier cfg w (run_metadata cfg w p) g ≡ (
        add_file ((started cfg w).id ++ meta_suffix) (run_metadata cfg w p),
        record g { storage = (b.write ((started cfg w).id ++ meta_suffix) (ok text) g.storage).1 },
      )
  unfolding write_metadata
  write_metadata-ok p g text json = rw (json, write_metadata) (rw (run_metadata-id cfg w p) refl)

  verified-complete :
      (p : Prepared) (g : Engine b) (text : Str)
      → k.to_json (run_metadata cfg w p) ≡ ok text
      → (complete b k t notifier cfg w p (prepared_result cfg w p) g).0.verified
        ≡ passed (
            verify_restore_integrity b t cfg.database.type
              (add_file ((started cfg w).id ++ meta_suffix) (run_metadata cfg w p))
              (b.write ((started cfg w).id ++ meta_suffix) (ok text) g.storage).1)
  verified-complete p g text json =
      let (m0, g0) = write_metadata b k t notifier cfg w (run_metadata cfg w p) g in
      ap (λ r. r.verified) (complete-verify p (prepared_result cfg w p) g)
      ∙ verified-verify m0 (record (prepared_result cfg w p) { duration = w.duration }) g0 refl
      ∙ rw (write_metadata-ok p g text json) refl

  pub verified-run :
      (g : Engine b) (p : Prepared) (text : Str)
      → prepare cfg w ≡ ok p
      → (run b k t notifier cfg w g).1 ≡ none
      → k.to_json (run_metadata cfg w p) ≡ ok text
      → (run b k t notifier cfg w g).0.verified
        ≡ passed (
            verify_restore_integrity b t cfg.database.type
              (add_file ((started cfg w).id ++ meta_suffix) (run_metadata cfg w p))
              (run b k t notifier cfg w g).2.storage)
  unfolding run
  verified-run g p text made success json =
      elim (Result-cases (b.write p.path (ok p.text) g.storage).0) [
        | inr (e, refused) ↦ absurd (ground (arith, rw (made, refused, run) at success))
        | inl (u, written) ↦ rw (storage-run b k t notifier cfg w g p made success text json) (
            rw (made, written, run)
              (verified-complete p (record g { storage = (b.write p.path (ok p.text) g.storage).1 })
                text json))
      ]
