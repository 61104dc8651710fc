-- ===== src/Roundtrip.antt =====
-- A backup of internal/backup/engine.go, restored by internal/restore/engine.go.
pub mod Later
pub mod Overlapping
use mathlib.Core.List.{reverse-append}
use datasaver.Base.{
  Bool, true, false, ◌||◌, Str, bytes, [], ◌∷◌, ◌++◌, Option, none, some, str_eq, ok, ◌≡◌, refl,
  subst, inl, inr, arith, Bool-cases, Result-cases, has_suffix, has_suffix-append, str_eq_refl,
}
use datasaver.Config.{Config, is_sqlite}
use datasaver.Driver.{Driver}
use datasaver.Metadata.{
  generate_backup_id, BackupMetadata, new_backup_metadata, set_backup_info, set_retention, add_file,
}
use datasaver.Notify.{Notifier}
use datasaver.Storage.{Backend}
use datasaver.Storage.Laws.{IsMap}
use datasaver.Validator.{Tools, meta_suffix, find_backup_file}
use datasaver.Engine.{Codec}
use datasaver.Engine.Run.{
  Engine, Prepared, prepare, run_metadata, run, started, make_dump, compressed, dump_path, value_or,
}
use datasaver.Engine.Run.{World as BackupWorld}
use datasaver.Engine.Dumped.{prepare-dump, dump_path-gz, compressed-nonempty}
use datasaver.Engine.Stored.{prepare-path, view-dump, view-meta, after_Good}
use datasaver.Restore.{
  RestoreOptions, World, read_metadata, fetch, verify, target, apply, restore_file, restore,
  parse_connection_info,
}

-- A stored file is fetched as the dump that it was made of.
module _ (b : Backend) (rw' : World) (rcfg : Config) (opts : RestoreOptions) (s : b.State)
    (cfg : Config) (w : BackupWorld) (dump : Str)
    (unzips : (packed : Str)
      → w.compress dump ≡ ok packed
      → (rw'.gzip_header packed ≡ ok tt) × (rw'.gunzip packed ≡ ok dump))
    (local_made : rw'.create_local ≡ ok tt) where
  fetch-compressed :
      (path text : Str)
      → compressed cfg w dump ≡ ok (path, text)
      → b.read path s ≡ ok (ok text)
      → fetch b rw' rcfg opts s path ≡ ok dump
  unfolding fetch compressed
  fetch-compressed path text packed got =
      elim (Bool-cases (str_eq cfg.compression (bytes "gzip"))) [
        | inr plain ↦
            let named : dump_path cfg w ≡ path = ground (arith, plain) in
            let same : dump ≡ text = ground (arith, plain) in
            let open_name : has_suffix path (bytes ".gz") ≡ false =
              subst (λ q. has_suffix q (bytes ".gz") ≡ false) named (dump_path-gz cfg w) in
            ground (arith, got, open_name, local_made, same)
        | inl gz ↦ elim (Result-cases (w.compress dump)) [
          | inr (e, broken) ↦ absurd (ground (arith, gz, broken))
          | inl (z, zipped) ↦
              let named : dump_path cfg w ++ bytes ".gz" ≡ path = ground (arith, gz, zipped) in
              let same : z ≡ text = ground (arith, gz, zipped) in
              let packed_name : has_suffix path (bytes ".gz") ≡ true =
                subst (λ q. has_suffix q (bytes ".gz") ≡ true) named
                  (has_suffix-append (dump_path cfg w) (bytes ".gz")) in
              let (header, whole) = unzips z zipped in
              ground (arith, got, packed_name, same, header, local_made, whole)
        ]
      ]

-- What a restore needs for a backup that was made of `dump`: its own temporary files, gzip and
-- SHA-256 as they were for the backup, and the JSON of the metadata.
pub record Restores (rw' : World) (w : BackupWorld) (dump text : Str) (m : BackupMetadata)
    : Type 0 where
  pub parses : rw'.parse text ≡ ok m
  pub unzips :
      (packed : Str)
      → w.compress dump ≡ ok packed
      → (rw'.gzip_header packed ≡ ok tt) × (rw'.gunzip packed ≡ ok dump)
  pub sums : (content : Str) → rw'.checksum content ≡ w.checksum content
  pub temp_made : rw'.mkdir_temp ≡ ok tt
  pub local_made : rw'.create_local ≡ ok tt
  pub copy_made : rw'.create_copy ≡ ok tt

-- A restore of one backup whose stored bytes can be read.
module _ (b : Backend) (rw' : World) (rcfg : Config) (opts : RestoreOptions) (s : b.State)
    (cfg : Config) (w : BackupWorld) (p : Prepared) (driver : Driver) (version dump text : Str)
    (prepared : prepare cfg w ≡ ok p) (dumped : make_dump cfg w ≡ ok (driver, version, dump))
    (can : Restores rw' w dump text (run_metadata cfg w p))
    (got : b.read p.path s ≡ ok (ok p.text)) where
  abbrev pub m : BackupMetadata
  m = run_metadata cfg w p

  verify-run : (v : Bool) × (verify b rw' rcfg opts s m p.path ≡ ok v)
  unfolding verify run_metadata new_backup_metadata set_backup_info set_retention add_file
  verify-run = elim (Bool-cases (opts.verify_checksum || rcfg.backup.verify_checksum)) [
    | inr unwanted ↦ (false, ground (arith, unwanted))
    | inl wanted ↦ elim (Bool-cases (str_eq p.checksum [])) [
      | inl none_there ↦ (false, ground (arith, wanted, none_there))
      | inr some_sum ↦
          let (_, summed) = prepare-dump cfg w p driver version dump prepared dumped in
          elim (Result-cases (w.checksum p.text)) [
            | inr (e, failed) ↦ absurd (ground (arith, summed, failed, str_eq_refl []))
            | inl (sum, found) ↦ (
              true,
              ground (
                arith,
                wanted,
                some_sum,
                got,
                can.copy_made,
                can.sums p.text,
                summed,
                found,
                str_eq_refl sum,
              ),
            )
          ]
    ]
  ]

  file-run : find_backup_file m.files ≡ p.path
  unfolding find_backup_file run_metadata new_backup_metadata set_backup_info set_retention add_file
  file-run = rw (prepare-path cfg w p prepared) refl

  calls-restore :
      read_metadata b rw' rcfg opts s ≡ ok m
      → opts.dry_run ≡ false
      → (restore b rw' rcfg opts s).calls
        ≡ record {
          text = dump;
          options = record (parse_connection_info rw' rcfg) {
            database = target b rw' rcfg opts s m;
          };
        }
          ∷ []
  unfolding restore restore_file apply
  calls-restore read real =
      let (packed, _) = prepare-dump cfg w p driver version dump prepared dumped in
      let named = compressed-nonempty cfg w dump p.path p.text packed in
      let fetched =
        fetch-compressed b rw' rcfg opts s cfg w dump can.unzips can.local_made p.path p.text packed
          got in
      let (v, checked) = verify-run in
      elim (Result-cases (
        rw'.pg_restore dump
          (record (parse_connection_info rw' rcfg) { database = target b rw' rcfg opts s m }))) [
            | inl (u, done) ↦
                ground (arith, read, real, file-run, named, fetched, checked, can.temp_made, done)
            | inr (e, failed) ↦
                ground (arith, read, real, file-run, named, fetched, checked, can.temp_made, failed)
          ]

-- The same on a backend that is a map, of a state that holds the dump and the metadata.
module _ (b : Backend) {Good : b.State → Type 0} {names : Str → Bool}
    {view : b.State → Str → Option Str} (law : IsMap b Good names view) (rw' : World)
    (rcfg : Config) (opts : RestoreOptions) (cfg : Config) (w : BackupWorld) (p : Prepared)
    (driver : Driver) (version dump text : Str) (prepared : prepare cfg w ≡ ok p)
    (dumped : make_dump cfg w ≡ ok (driver, version, dump))
    (can : Restores rw' w dump text (run_metadata cfg w p))
    (same : opts.backup_id ≡ (started cfg w).id) (real : opts.dry_run ≡ false) where
  pub calls-restore_stored :
      (s : b.State)
      → Good s
      → view s p.path ≡ some p.text
      → view s ((started cfg w).id ++ meta_suffix) ≡ some text
      → (restore b rw' rcfg opts s).calls
        ≡ record {
          text = dump;
          options = record (parse_connection_info rw' rcfg) {
            database = target b rw' rcfg opts s (run_metadata cfg w p);
          };
        }
          ∷ []
  unfolding read_metadata
  calls-restore_stored s good stored meta =
      let path = (started cfg w).id ++ meta_suffix in
      let got : b.read p.path s ≡ ok (ok p.text) = rw (law.read_view p.path s good, stored) refl in
      let got_meta : b.read path s ≡ ok (ok text) = rw (law.read_view path s good, meta) refl in
      let read : read_metadata b rw' rcfg opts s ≡ ok (run_metadata cfg w p) =
        ground (arith, same, got_meta, can.parses) in
      calls-restore b rw' rcfg opts s cfg w p driver version dump text prepared dumped can got read
        real

module _ (b : Backend) (k : Codec) (t : Tools) (notifier : Option Notifier) (cfg : Config)
    (w : BackupWorld) (g : Engine b) (p : Prepared) (prepared : prepare cfg w ≡ ok p)
    (success : (run b k t notifier cfg w g).1 ≡ none) (Good : b.State → Type 0) (names : Str → Bool)
    (view : b.State → Str → Option Str) (law : IsMap b Good names view) (good : Good g.storage)
    (text : Str) (json : k.to_json (run_metadata cfg w p) ≡ ok text) (name : names p.path ≡ true)
    (meta_name : names ((started cfg w).id ++ meta_suffix) ≡ true) where
  abbrev after : b.State
  after = (run b k t notifier cfg w g).2.storage

  -- On a backend that is a map: if a run returns no error, a later restore of its ID, where it can
  -- make its temporary files, unpack what gzip has packed, sum up as the run has and parse the
  -- metadata, calls pg_restore once, with the bytes that the database driver dumped.
  pub restore-run :
      (rw' : World) (rcfg : Config) (opts : RestoreOptions) (driver : Driver) (version dump : Str)
      → make_dump cfg w ≡ ok (driver, version, dump)
      → Restores rw' w dump text (run_metadata cfg w p)
      → opts.backup_id ≡ (started cfg w).id
      → opts.dry_run ≡ false
      → (restore b rw' rcfg opts after).calls
        ≡ record {
          text = dump;
          options = record (parse_connection_info rw' rcfg) {
            database = target b rw' rcfg opts after (run_metadata cfg w p);
          };
        }
          ∷ []
  restore-run rw' rcfg opts driver version dump dumped can same real =
      calls-restore_stored b law rw' rcfg opts cfg w p driver version dump text prepared dumped can
        same real after
        (after_Good b k t notifier cfg w g p prepared success Good names view law good text json
          name meta_name)
        (view-dump b k t notifier cfg w g p prepared success Good names view law good text json name
          meta_name)
        (view-meta b k t notifier cfg w g p prepared success Good names view law good text json name
          meta_name)
