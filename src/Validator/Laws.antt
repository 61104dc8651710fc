-- ===== src/Validator/Laws.antt =====
-- What internal/backup/validator.go has compared when it calls a backup valid.
use datasaver.Base.{
  ℕ, Bool, true, Str, [], ◌++◌, Option, some, str_eq_iff, ok, length, ◌≡◌, ◌≢◌, arith, Option-cases,
  Result-cases, inl, inr,
}
use datasaver.Base.Int.{ℤ, pos, eqb_ℤ_sound}
use datasaver.Metadata.{BackupMetadata}
use datasaver.Storage.{Backend}
use datasaver.Storage.Laws.{IsMap}
use datasaver.Validator.{
  ValidationResult, Tools, first_data_file, meta_suffix, validate, check_file, check_sum,
  check_size, create_temp_file,
}

module _ {b : Backend} {Good : b.State → Type 0} {names : Str → Bool}
    {view : b.State → Str → Option Str} (m : IsMap b Good names view) (t : Tools)
    (size_text : ℤ → ℕ → Str) (meta : BackupMetadata) (s : b.State) (good : Good s) where
  abbrev file : Str
  file = first_data_file (meta.id ++ meta_suffix) meta.files

  -- On a backend that is a map: a backup that Validate calls valid, with its checksum found right,
  -- where the metadata has one, is stored under its first file with the size and the checksum of
  -- the metadata.
  pub validate_valid :
      (r : ValidationResult)
      → validate b t size_text meta s ≡ ok r
      → r.valid ≡ true
      → r.checksum_ok ≡ true
      → meta.backup.checksum ≢ []
      → (text : Str) × (view s file ≡ some text)
        × (pos (length text) ≡ meta.backup.compressed_size)
        × (t.checksum text ≡ ok meta.backup.checksum)
  unfolding validate check_file check_sum check_size create_temp_file
  validate_valid r done valid sum_ok some_sum = elim (Option-cases (view s file)) [
    | inl missing ↦
        absurd
          (ground (arith, m.exists_view file s good, missing, str_eq_iff meta.backup.checksum []))
    | inr (text, stored) ↦ elim (Result-cases (t.checksum text)) [
      | inr (e, unsummed) ↦ absurd (
          ground (
            arith,
            m.exists_view file s good,
            m.size_view file s good,
            m.read_view file s good,
            stored,
            unsummed,
            str_eq_iff meta.backup.checksum [],
          ))
      | inl (sum, summed) ↦ (
        text,
        stored,
        eqb_ℤ_sound _ _ (
            ground (
              arith,
              m.exists_view file s good,
              m.size_view file s good,
              m.read_view file s good,
              stored,
              summed,
              str_eq_iff meta.backup.checksum [],
              str_eq_iff sum meta.backup.checksum,
            )),
        ground (
          arith,
          m.exists_view file s good,
          m.size_view file s good,
          m.read_view file s good,
          stored,
          summed,
          str_eq_iff meta.backup.checksum [],
          str_eq_iff sum meta.backup.checksum,
        ),
      )
    ]
  ]
