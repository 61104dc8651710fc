-- ===== src/Restore/Safety.antt =====
-- What a restore of internal/restore/engine.go never does.
use datasaver.Base.{
  Bool, true, false, ◌||◌, Str, List, [], ◌∷◌, none, ok, err, ◌≡◌, ◌≢◌, ◌↔◌, arith, Result-cases,
  inl, inr, str_eq_iff,
}
use datasaver.Config.{Config}
use datasaver.Metadata.{BackupMetadata}
use datasaver.Storage.{Backend}
use datasaver.Validator.{find_backup_file}
use datasaver.Restore.{
  RestoreOptions, World, Call, Outcome, read_metadata, fetch, verify, target, apply, restore_file,
  restore, parse_connection_info,
}

module _ (b : Backend) (w : World) (cfg : Config) (opts : RestoreOptions) (s : b.State) where
  abbrev run : Outcome
  run = restore b w cfg opts s

  -- A dry run calls no pg_restore.
  pub restore_dry : opts.dry_run ≡ true → run.calls ≡ []
  unfolding restore
  restore_dry h = ground arith

  -- A restore returns no error exactly if its result says success.
  pub restore_success : (run.error ≡ none) ↔ (run.result.success ≡ true)
  unfolding restore
  restore_success = ground arith

  -- What a check that passes has compared, where it is wanted and there is a checksum.
  verify_compared :
      (m : BackupMetadata) (file : Str) (v : Bool)
      → (opts.verify_checksum || cfg.backup.verify_checksum) ≡ true
      → m.backup.checksum ≢ []
      → verify b w cfg opts s m file ≡ ok v
      → (text : Str) × (b.read file s ≡ ok (ok text)) × (w.checksum text ≡ ok m.backup.checksum)
  unfolding verify
  verify_compared m file v wanted some_sum passed = elim (Result-cases (b.read file s)) [
    | inr (e, unread) ↦ absurd (ground (arith, unread, str_eq_iff m.backup.checksum []))
    | inl (err e, broken) ↦ absurd (ground (arith, broken, str_eq_iff m.backup.checksum []))
    | inl (ok text, got) ↦ elim (Result-cases (w.checksum text)) [
      | inr (e, unsummed) ↦ absurd (ground (arith, got, unsummed, str_eq_iff m.backup.checksum []))
      | inl (sum, summed) ↦ (
        text,
        got,
        ground
            (arith, got, summed, str_eq_iff m.backup.checksum [], str_eq_iff sum m.backup.checksum),
      )
    ]
  ]

  verified_of_call :
      (m : BackupMetadata) (file : Str) (c : Call) (cs : List Call)
      → (restore_file b w cfg opts s m file).calls ≡ c ∷ cs
      → (v : Bool) × (verify b w cfg opts s m file ≡ ok v)
  unfolding restore_file
  verified_of_call m file c cs calls = elim (Result-cases (verify b w cfg opts s m file)) [
    | inl (v, passed) ↦ (v, passed)
    | inr (e, refused) ↦ absurd (ground (arith, refused))
  ]

  calls_of_restore :
      (m : BackupMetadata) (c : Call) (cs : List Call)
      → read_metadata b w cfg opts s ≡ ok m
      → run.calls ≡ c ∷ cs
      → (restore_file b w cfg opts s m (find_backup_file m.files)).calls ≡ c ∷ cs
  unfolding restore
  calls_of_restore m c cs meta calls = ground (arith, meta)

  -- With the check wanted and a checksum in the metadata, pg_restore is called only if the stored
  -- file has that checksum.
  pub restore_checked :
      (m : BackupMetadata) (c : Call) (cs : List Call)
      → read_metadata b w cfg opts s ≡ ok m
      → (opts.verify_checksum || cfg.backup.verify_checksum) ≡ true
      → m.backup.checksum ≢ []
      → run.calls ≡ c ∷ cs
      → (text : Str) × (b.read (find_backup_file m.files) s ≡ ok (ok text))
        × (w.checksum text ≡ ok m.backup.checksum)
  unfolding restore
  restore_checked m c cs meta wanted some_sum calls =
      let file = find_backup_file m.files in
      let called : (restore_file b w cfg opts s m file).calls ≡ c ∷ cs =
        calls_of_restore m c cs meta calls in
      let (v, passed) = verified_of_call m file c cs called in
      verify_compared m file v wanted some_sum passed

  -- A restore that succeeds, and is no dry run, has called pg_restore once, on the database that
  -- its result names.
  pub restore_one_call :
      run.error ≡ none
      → opts.dry_run ≡ false
      → (c : Call) × (run.calls ≡ c ∷ []) × (c.options.database ≡ run.result.target_db)
  unfolding restore restore_file apply
  restore_one_call clean real = elim (Result-cases (read_metadata b w cfg opts s)) [
    | inr (e, unread) ↦ absurd (ground (arith, unread))
    | inl (m, meta) ↦ elim (Result-cases (fetch b w cfg opts s (find_backup_file m.files))) [
      | inr (e, unfetched) ↦ absurd (ground (arith, meta, unfetched))
      | inl (text, fetched) ↦ (
        record {
          text = text;
          options = record (parse_connection_info w cfg) { database = target b w cfg opts s m };
        },
        ground (arith, meta, fetched),
        ground (arith, meta, fetched),
      )
    ]
  ]
