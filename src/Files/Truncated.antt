-- ===== src/Files/Truncated.antt =====
-- What a run of internal/backup/engine.go stores when compressGzip cannot close its writer.
use datasaver.Base.{
  ℕ, Bool, true, Str, bytes, [], ◌++◌, Option, none, some, str_eq, ok, ◌≡◌, ap, ◌∙◌, arith,
}
use datasaver.Base.Int.{ℤ}
use datasaver.Config.{Config}
use datasaver.Driver.{Driver}
use datasaver.Notify.{Notifier}
use datasaver.Storage.{Backend}
use datasaver.Storage.Laws.{IsMap}
use datasaver.Validator.{Tools, meta_suffix, validate}
use datasaver.Engine.{Codec}
use datasaver.Engine.Run.{
  Engine, World, Prepared, prepare, run_metadata, run, started, make_dump, compressed,
}
use datasaver.Engine.Dumped.{prepare-dump}
use datasaver.Engine.Stored.{view-dump}
use datasaver.Engine.Validated.{run_validates}
use datasaver.Files.{GzipWriter, compress_gzip, compressed_file, close_writer, left_of}

-- The bytes that a run has made of its dump.
prepared-text :
    (cfg : Config) (w : World) (gz : GzipWriter) (p : Prepared) (driver : Driver)
    (version dump : Str)
    → prepare cfg w ≡ ok p
    → make_dump cfg w ≡ ok (driver, version, dump)
    → str_eq cfg.compression (bytes "gzip") ≡ true
    → w.compress dump ≡ compressed_file (compress_gzip (ok (ok dump)) (ok tt) gz)
    → p.text ≡ gz.copied dump ++ left_of (gz.close_fails dump) (gz.closed dump)
unfolding compress_gzip close_writer compressed
prepared-text cfg w gz p driver version dump made dumped zips by_gzip =
    let (packed, _) = prepare-dump cfg w p driver version dump made dumped in
    ground (arith, packed, zips, by_gzip)

module _ (b : Backend) (k : Codec) (t : Tools) (notifier : Option Notifier) (cfg : Config)
    (w : World) (g : Engine b) (p : Prepared) (made : prepare cfg w ≡ ok p)
    (success : (run b k t notifier cfg w g).1 ≡ none) (Good : b.State → Type 0) (names : Str → Bool)
    (view : b.State → Str → Option Str) (law : IsMap b Good names view) (good : Good g.storage)
    (text : Str) (json : k.to_json (run_metadata cfg w p) ≡ ok text) (name : names p.path ≡ true)
    (meta_name : names ((started cfg w).id ++ meta_suffix) ≡ true) where
  abbrev after : b.State
  after = (run b k t notifier cfg w g).2.storage

  -- On a backend that is a map: a run with gzip that returns no error has stored what io.Copy has
  -- written of the dump, and behind it what the deferred Close has written, which is a part only
  -- where Close fails. Validate calls that file valid too.
  pub run_zipped :
      (gz : GzipWriter) (driver : Driver) (version dump : Str) (size_text : ℤ → ℕ → Str)
      → make_dump cfg w ≡ ok (driver, version, dump)
      → str_eq cfg.compression (bytes "gzip") ≡ true
      → w.compress dump ≡ compressed_file (compress_gzip (ok (ok dump)) (ok tt) gz)
      → t.create_temp ≡ none
      → ((content : Str) → t.checksum content ≡ w.checksum content)
      → (view after p.path
          ≡ some (gz.copied dump ++ left_of (gz.close_fails dump) (gz.closed dump)))
        × (validate b t size_text (run_metadata cfg w p) after
            ≡ ok (record {
              backup_id = (started cfg w).id;
              valid = true;
              file_exists = true;
              size_match = true;
              checksum_ok = true;
              errors = [];
            }))
  run_zipped gz driver version dump size_text dumped zips by_gzip temp sums = (
    view-dump b k t notifier cfg w g p made success Good names view law good text json name
          meta_name
        ∙ ap some (prepared-text cfg w gz p driver version dump made dumped zips by_gzip),
    run_validates b k t notifier cfg w g p made success Good names view law good text json name
        meta_name size_text temp sums,
  )
