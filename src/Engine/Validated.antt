-- ===== src/Engine/Validated.antt =====
-- What Validate of internal/backup/validator.go says of the backup that a run of
-- internal/backup/engine.go has just stored.
use datasaver.Base.{
  ℕ, Bool, true, false, Str, [], ◌++◌, Option, none, some, str_eq, str_eq_refl, str_eq_iff, ok,
  length, ◌≡◌, arith, inl, inr, Result-cases,
}
use datasaver.Base.Int.{ℤ, pos}
use datasaver.Config.{Config}
use datasaver.Metadata.{new_backup_metadata, set_backup_info, set_retention, add_file}
use datasaver.Notify.{Notifier}
use datasaver.Storage.{Backend}
use datasaver.Storage.Laws.{IsMap}
use datasaver.Validator.{
  Tools, meta_suffix, first_data_file, create_temp_file, check_sum, check_size, check_file,
  validate,
}
use datasaver.Engine.{Codec}
use datasaver.Engine.Run.{
  Engine, World, Prepared, prepare, run_metadata, run, started, make_dump, compressed, value_or,
}
use datasaver.Engine.Dumped.{compressed-nonempty}
use datasaver.Engine.Stored.{prepare-apart, view-dump, after_Good}

-- What a run has measured of the bytes that it stores.
prepare-measured :
    (cfg : Config) (w : World) (p : Prepared)
    → prepare cfg w ≡ ok p
    → (p.compressed_size ≡ pos (length p.text))
      × (p.checksum ≡ value_or [] (w.checksum p.text))
      × (str_eq p.path [] ≡ false)
unfolding prepare
prepare-measured cfg w p made = elim (Result-cases (make_dump cfg w)) [
  | inr (r, failed) ↦ absurd (ground (arith, made, failed))
  | inl ((driver, version, dump), dumped) ↦ elim (Result-cases (compressed cfg w dump)) [
    | inr (r, failed) ↦ absurd (ground (arith, made, dumped, failed))
    | inl ((path, final), packed) ↦ (
      ground (arith, made, dumped, packed),
      ground (arith, made, dumped, packed),
      ground (arith, made, dumped, packed, compressed-nonempty cfg w dump path final packed),
    )
  ]
]

module _ (b : Backend) (t : Tools) {Good : b.State → Type 0} {names : Str → Bool}
    {view : b.State → Str → Option Str} (law : IsMap b Good names view)
    (temp : t.create_temp ≡ none) (size_text : ℤ → ℕ → Str) (cfg : Config) (w : World)
    (p : Prepared) (made : prepare cfg w ≡ ok p)
    (sums : (content : Str) → t.checksum content ≡ w.checksum content) (s : b.State) (good : Good s)
    (held : view s p.path ≡ some p.text) where
  first-run :
      first_data_file ((run_metadata cfg w p).id ++ meta_suffix) (run_metadata cfg w p).files
      ≡ p.path
  unfolding first_data_file run_metadata new_backup_metadata set_backup_info set_retention add_file
  first-run =
      let meta = (started cfg w).id ++ meta_suffix in
      ground (arith, prepare-apart cfg w p made, str_eq_iff meta p.path, str_eq_iff p.path meta)

  validate-held :
      validate b t size_text (run_metadata cfg w p) s
      ≡ ok (record {
        backup_id = (started cfg w).id;
        valid = true;
        file_exists = true;
        size_match = true;
        checksum_ok = true;
        errors = [];
      })
  unfolding validate check_file check_sum check_size create_temp_file run_metadata
      new_backup_metadata set_backup_info set_retention add_file
  validate-held =
      let (sized, summed, named) = prepare-measured cfg w p made in
      ground (
        arith,
        first-run,
        sized,
        summed,
        named,
        law.exists_view p.path s good,
        law.size_view p.path s good,
        law.read_view p.path s good,
        held,
        sums p.text,
        temp,
        str_eq_refl p.checksum,
      )

module _ (b : Backend) (k : Codec) (t : Tools) (notifier : Option Notifier) (cfg : Config)
    (w : World) (g : Engine b) (p : Prepared) (made : prepare cfg w ≡ ok p)
    (success : (run b k t notifier cfg w g).1 ≡ none) (Good : b.State → Type 0) (names : Str → Bool)
    (view : b.State → Str → Option Str) (law : IsMap b Good names view) (good : Good g.storage)
    (text : Str) (json : k.to_json (run_metadata cfg w p) ≡ ok text) (name : names p.path ≡ true)
    (meta_name : names ((started cfg w).id ++ meta_suffix) ≡ true) where
  -- On a backend that is a map: what a successful run has stored, Validate calls valid in all its
  -- parts by the metadata of the run, where it can make its temporary file and sums up as the run.
  pub run_validates :
      (size_text : ℤ → ℕ → Str)
      → t.create_temp ≡ none
      → ((content : Str) → t.checksum content ≡ w.checksum content)
      → validate b t size_text (run_metadata cfg w p) (run b k t notifier cfg w g).2.storage
        ≡ ok (record {
          backup_id = (started cfg w).id;
          valid = true;
          file_exists = true;
          size_match = true;
          checksum_ok = true;
          errors = [];
        })
  run_validates size_text temp sums =
      validate-held b t law temp size_text cfg w p made sums (run b k t notifier cfg w g).2.storage
        (after_Good b k t notifier cfg w g p made success Good names view law good text json name
          meta_name)
        (view-dump b k t notifier cfg w g p made success Good names view law good text json name
          meta_name)
