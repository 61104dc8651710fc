-- ===== src/Engine/Frame.antt =====
-- What a run of internal/backup/engine.go leaves as it was, whether it ends well or not.
use datasaver.Base.{
  has_str, List, [], ◌∷◌, Bool, true, false, Str, bytes, ◌++◌, Option, if◌then◌else◌, str_eq,
  Result, ok, err, ◌≡◌, refl, inl, inr, arith, Result-cases, Bool-cases,
}
use datasaver.Config.{Config, is_sqlite}
use mathlib.Core.List.{append_assoc}
use datasaver.Metadata.{generate_backup_id}
use datasaver.Notify.{Notifier}
use datasaver.Storage.{Backend, StorageError}
use datasaver.Clock.{Time}
use datasaver.Storage.Laws.{IsMap}
use datasaver.Validator.{Tools, meta_suffix}
use datasaver.Engine.{Codec}
use datasaver.Engine.Run.{
  Engine, BackupResult, World, Prepared, prepare, prepared_result, run_metadata, write_metadata,
  complete, run, started, handle_backup_error, compressed, dump_path,
}
use datasaver.Engine.Stored.{verify-storage, run_metadata-id}

-- What is behind the ID in the names of the files of a run.
abbrev pub file_suffixes : List Str
file_suffixes = meta_suffix ∷ bytes ".dump" ∷ bytes ".sql" ∷ bytes ".dump.gz" ∷ bytes ".sql.gz" ∷ []

pub has_str-meta_suffix : has_str meta_suffix file_suffixes ≡ true
unfolding has_str
has_str-meta_suffix = refl

-- The name of the data file of a run is its ID with one of these suffixes.
pub prepare-name :
    (cfg : Config) (w : World) (p : Prepared)
    → prepare cfg w ≡ ok p
    → (suffix : Str) × (has_str suffix file_suffixes ≡ true)
      × (p.path ≡ generate_backup_id w.start ++ suffix)
unfolding has_str prepare compressed dump_path
prepare-name cfg w p made =
    let kind = if is_sqlite cfg then bytes ".sql" else bytes ".dump" in
    elim (Bool-cases (str_eq cfg.compression (bytes "gzip"))) [
      | inl gz ↦ (
        kind ++ bytes ".gz",
        elim (Bool-cases (is_sqlite cfg)) [ inl file ↦ rw file refl | inr server ↦ rw server refl ],
        ground (arith, made, gz, append_assoc (generate_backup_id w.start) kind (bytes ".gz")),
      )
      | inr plain ↦ (
        kind,
        elim (Bool-cases (is_sqlite cfg)) [ inl file ↦ rw file refl | inr server ↦ rw server refl ],
        ground (arith, made, plain),
      )
    ]

-- The two files of a run have other names than this one.
pub record Apart (cfg : Config) (w : World) (q : Str) : Type 0 where
  pub meta_apart : str_eq ((started cfg w).id ++ meta_suffix) q ≡ false
  pub data_apart : (p : Prepared) → prepare cfg w ≡ ok p → str_eq p.path q ≡ false

module _ (b : Backend) (k : Codec) (t : Tools) (notifier : Option Notifier) (cfg : Config)
    (w : World) where
  -- The storage after the metadata of a run was written, or could not be made.
  abbrev pub with_metadata : Result Str Str → b.State → b.State
  with_metadata json s = elim json [
    | err e ↦ s
    | ok text ↦ (b.write ((started cfg w).id ++ meta_suffix) (ok text) s).1
  ]

  complete-storage :
      (p : Prepared) (r : BackupResult) (g : Engine b)
      → (complete b k t notifier cfg w p r g).1.storage
        ≡ with_metadata (k.to_json (run_metadata cfg w p)) g.storage
  unfolding complete
  complete-storage p r g = elim (Result-cases (k.to_json (run_metadata cfg w p))) [
    | inl (text, json) ↦
        rw (complete, verify-storage) (rw (json, write_metadata) (rw (run_metadata-id cfg w p)))
    | inr (e, failed) ↦ rw (complete, verify-storage) (rw (failed, write_metadata))
  ]

  abbrev after : Engine b → b.State
  after g = (run b k t notifier cfg w g).2.storage

  after_failing : (g : Engine b) (r : BackupResult) → prepare cfg w ≡ err r → after g ≡ g.storage
  unfolding run handle_backup_error
  after_failing g r failed = rw (failed, after, run)

  module _ (g : Engine b) (p : Prepared) (made : prepare cfg w ≡ ok p) where
    abbrev pub with_data : Result StorageError (Unit {0}) × b.State
    with_data = b.write p.path (ok p.text) g.storage

    after_written :
        with_data.0 ≡ ok tt → after g ≡ with_metadata (k.to_json (run_metadata cfg w p)) with_data.1
    unfolding run
    after_written written =
        rw (made, written, after, run)
          (complete-storage p (prepared_result cfg w p) (record g { storage = with_data.1 }))

  module _ {Good : b.State → Type 0} {names : Str → Bool} {view : b.State → Str → Option Str}
      (law : IsMap b Good names view)
      (named : (u : Time) (suffix : Str)
        → has_str suffix file_suffixes ≡ true
        → names (generate_backup_id u ++ suffix) ≡ true)
      (g : Engine b) (good : Good g.storage) where
    -- On a backend that is a map, a run leaves a map, whether it fails or not.
    pub run-Good : Good (after g)
    run-Good = elim (Result-cases (prepare cfg w)) [
      | inr (r, failed) ↦ rw (after_failing g r failed) good
      | inl (p, made) ↦ elim (Result-cases (k.to_json (run_metadata cfg w p))) [
        | inl (text, json) ↦
            rw (after_written g p made (law.write_ok p.path p.text g.storage good), json)
              (law.write_Good _ text _ (law.write_Good p.path p.text g.storage good))
        | inr (e, failed) ↦
            rw (after_written g p made (law.write_ok p.path p.text g.storage good), failed)
              (law.write_Good p.path p.text g.storage good)
      ]
    ]

    -- On a backend that is a map, and where the names of the files of backups are told apart, a run
    -- leaves the content of every other file, whether it fails or not.
    pub run-view : (q : Str) → names q ≡ true → Apart cfg w q → view (after g) q ≡ view g.storage q
    run-view q nq apart = elim (Result-cases (prepare cfg w)) [
      | inr (r, failed) ↦ rw (after_failing g r failed)
      | inl (p, made) ↦
          let (suffix, listed, name) = prepare-name cfg w p made in
          let np : names p.path ≡ true = rw name (named w.start suffix listed) in
          let kept : view (with_data g p made).1 q ≡ view g.storage q =
            rw (law.write_view p.path p.text g.storage q good np nq, apart.data_apart p made)
              refl in
          let written = after_written g p made (law.write_ok p.path p.text g.storage good) in
          elim (Result-cases (k.to_json (run_metadata cfg w p))) [
            | inr (e, failed) ↦ rw (written, failed) kept
            | inl (text, json) ↦
                let meta =
                  law.write_view _ text (with_data g p made).1 q
                    (law.write_Good p.path p.text g.storage good)
                    (named w.start meta_suffix has_str-meta_suffix) nq in
                rw (written, json, meta, apart.meta_apart) kept
          ]
    ]
