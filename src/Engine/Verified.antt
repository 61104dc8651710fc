-- ===== src/Engine/Verified.antt =====
-- What the verification at the end of a run of internal/backup/engine.go says of its dump.
use datasaver.Base.{
  Bool, true, false, Str, bytes, [], ◌∷◌, ◌++◌, Option, none, some, if◌then◌else◌, str_eq, has_str,
  has_suffix, has_suffix-append, to_lower, Result, ok, err, ◌≡◌, ◌↔◌, refl, sym, ap, ◌∙◌, subst,
  arith, inl, inr, Bool-cases, Result-cases,
}
use datasaver.Config.{Config}
use datasaver.Driver.{Driver}
use datasaver.Metadata.{new_backup_metadata, set_backup_info, set_retention, add_file}
use datasaver.Notify.{Notifier}
use datasaver.Storage.{Backend}
use datasaver.Storage.Laws.{IsMap}
use datasaver.Validator.{
  Tools, meta_suffix, find_backup_file, create_temp_file, read_backup_content, actual_archive,
  verify_sqlite_restore, verify_postgres_restore, verify_restore_integrity,
}
use datasaver.Engine.{Codec}
use datasaver.Engine.Run.{
  Engine, World, Prepared, prepare, run_metadata, run, started, make_dump, compressed, dump_path,
}
use datasaver.Engine.Dumped.{prepare-dump, dump_path-gz, compressed-nonempty}
use datasaver.Engine.Stored.{prepare-path, view-dump, after_Good}
use datasaver.Engine.Flagged.{passed, verified-run}

module _ (b : Backend) (t : Tools) where
  -- The check of a dump that is not packed.
  pub check_dump : Str → Str → Result Str (Unit {0})
  check_dump db_type dump =
      if has_str (to_lower db_type) (bytes "sqlite" ∷ bytes "sqlite3" ∷ [])
      then verify_sqlite_restore b t dump false
      else if has_str (to_lower db_type)
          (bytes "postgres" ∷ bytes "postgresql" ∷ bytes "pg" ∷ [] ∷ [])
      then verify_postgres_restore b t dump false
      else err (bytes "unsupported database type: " ++ db_type)

  module _ (cfg : Config) (w : World) (dump : Str)
      (unzips : (packed : Str) → w.compress dump ≡ ok packed → t.gunzip packed ≡ ok dump)
      (temp : t.create_temp ≡ none) where
    unpacked :
        (packed : Str)
        → t.gunzip packed ≡ ok dump
        → (verify_sqlite_restore b t packed true ≡ verify_sqlite_restore b t dump false)
          × (verify_postgres_restore b t packed true ≡ verify_postgres_restore b t dump false)
    unfolding verify_sqlite_restore verify_postgres_restore read_backup_content actual_archive
    unpacked packed whole = (rw whole refl, rw (temp, whole) refl)

    -- What the checks read of the packed file is the dump.
    content-compressed :
        (path text : Str)
        → compressed cfg w dump ≡ ok (path, text)
        → (verify_sqlite_restore b t text (has_suffix path (bytes ".gz"))
            ≡ verify_sqlite_restore b t dump false)
          × (verify_postgres_restore b t text (has_suffix path (bytes ".gz"))
              ≡ verify_postgres_restore b t dump false)
    unfolding compressed
    content-compressed path text packed =
        elim (Bool-cases (str_eq cfg.compression (bytes "gzip"))) [
          | inr plain ↦
              let named : dump_path cfg w ≡ path = ground (arith, plain) in
              let same : dump ≡ text = ground (arith, plain) in
              let open_name : has_suffix path (bytes ".gz") ≡ false =
                subst (λ q. has_suffix q (bytes ".gz") ≡ false) named (dump_path-gz cfg w) in
              (cc (open_name, same), cc (open_name, same))
          | inl gz ↦ elim (Result-cases (w.compress dump)) [
            | inr (e, broken) ↦ absurd (ground (arith, gz, broken))
            | inl (z, zipped) ↦
                let named : dump_path cfg w ++ bytes ".gz" ≡ path = ground (arith, gz, zipped) in
                let same : z ≡ text = ground (arith, gz, zipped) in
                let packed_name : has_suffix path (bytes ".gz") ≡ true =
                  subst (λ q. has_suffix q (bytes ".gz") ≡ true) named
                    (has_suffix-append (dump_path cfg w) (bytes ".gz")) in
                let whole = unzips z zipped in
                let (lite, post) = unpacked z whole in
                (cc (packed_name, same, lite), cc (packed_name, same, post))
          ]
        ]

module _ (b : Backend) (t : Tools) {Good : b.State → Type 0} {names : Str → Bool}
    {view : b.State → Str → Option Str} (law : IsMap b Good names view) (cfg : Config) (w : World)
    (p : Prepared) (driver : Driver) (version dump : Str) (made : prepare cfg w ≡ ok p)
    (dumped : make_dump cfg w ≡ ok (driver, version, dump))
    (unzips : (packed : Str) → w.compress dump ≡ ok packed → t.gunzip packed ≡ ok dump)
    (temp : t.create_temp ≡ none) where
  file-run : (q : Str) → find_backup_file (add_file q (run_metadata cfg w p)).files ≡ p.path
  unfolding find_backup_file run_metadata new_backup_metadata set_backup_info set_retention add_file
  file-run q = rw (prepare-path cfg w p made) refl

  temp_file : (content : Str) → create_temp_file b t (ok content) ≡ ok content
  unfolding create_temp_file
  temp_file content = rw temp refl

  -- The check of a stored dump is the check of the dump.
  verify_restore-held :
      (s : b.State) (q : Str)
      → Good s
      → view s p.path ≡ some p.text
      → verify_restore_integrity b t cfg.database.type (add_file q (run_metadata cfg w p)) s
        ≡ check_dump b t cfg.database.type dump
  unfolding verify_restore_integrity check_dump verify_sqlite_restore verify_postgres_restore
  verify_restore-held s q good held =
      let (packed, _) = prepare-dump cfg w p driver version dump made dumped in
      let named = compressed-nonempty cfg w dump p.path p.text packed in
      let (lite, post) = content-compressed b t cfg w dump unzips temp p.path p.text packed in
      let got : b.read p.path s ≡ ok (ok p.text) = rw (law.read_view p.path s good, held) refl in
      let db_type = to_lower cfg.database.type in
      elim (Bool-cases (has_str db_type (bytes "sqlite" ∷ bytes "sqlite3" ∷ []))) [
        | inl sqlite ↦ rw (file-run q, named, got, temp_file p.text, file-run q, sqlite) lite
        | inr other ↦
            elim (Bool-cases
              (has_str db_type (bytes "postgres" ∷ bytes "postgresql" ∷ bytes "pg" ∷ [] ∷ []))) [
                | inl postgres ↦
                    rw (file-run q, named, got, temp_file p.text, file-run q, other, postgres) post
                | inr unknown ↦
                    rw (file-run q, named, got, temp_file p.text, file-run q, other, unknown) refl
              ]
      ]

module _ (b : Backend) (k : Codec) (t : Tools) (notifier : Option Notifier) (cfg : Config)
    (w : World) (g : Engine b) (p : Prepared) (made : prepare cfg w ≡ ok p)
    (success : (run b k t notifier cfg w g).1 ≡ none) (Good : b.State → Type 0) (names : Str → Bool)
    (view : b.State → Str → Option Str) (law : IsMap b Good names view) (good : Good g.storage)
    (text : Str) (json : k.to_json (run_metadata cfg w p) ≡ ok text) (name : names p.path ≡ true)
    (meta_name : names ((started cfg w).id ++ meta_suffix) ≡ true) where
  passed_iff : (r : Result Str (Unit {0})) → passed r ≡ true ↔ r ≡ ok tt
  passed_iff (ok u) = (λ h. refl, λ h. refl)
  passed_iff (err e) = (λ h. absurd (ground (arith, h)), λ h. absurd (ground (arith, h)))

  -- On a backend that is a map: a run that verifies its backup and returns no error says that it is
  -- verified exactly if the dump itself passes the check for the type of the database, where the
  -- check can make its temporary files and unpack what the run has packed.
  pub run_verified_iff :
      (driver : Driver) (version dump : Str)
      → make_dump cfg w ≡ ok (driver, version, dump)
      → cfg.backup.verify_after_backup ≡ true
      → t.create_temp ≡ none
      → ((packed : Str) → w.compress dump ≡ ok packed → t.gunzip packed ≡ ok dump)
      → (run b k t notifier cfg w g).0.verified ≡ true
        ↔ check_dump b t cfg.database.type dump ≡ ok tt
  run_verified_iff driver version dump dumped wanted temp unzips =
      let after = (run b k t notifier cfg w g).2.storage in
      let path = (started cfg w).id ++ meta_suffix in
      let checked =
        verify_restore-held b t law cfg w p driver version dump made dumped unzips temp after path
          (after_Good b k t notifier cfg w g p made success Good names view law good text json name
            meta_name)
          (view-dump b k t notifier cfg w g p made success Good names view law good text json name
            meta_name) in
      let flag : (run b k t notifier cfg w g).0.verified
          ≡ passed (check_dump b t cfg.database.type dump) =
        verified-run b k t notifier cfg w wanted g p text made success json ∙ ap passed checked in
      let (to_ok, to_true) = passed_iff (check_dump b t cfg.database.type dump) in
      (λ h. to_ok (sym flag ∙ h), λ h. flag ∙ to_true h)
