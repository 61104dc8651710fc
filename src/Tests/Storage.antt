-- ===== src/Tests/Storage.antt =====
-- Examples of the theorems on the storage and on the checks of a stored backup.
use datasaver.Base.{true, Str, bytes, [], ◌∷◌, some, ok, ◌≡◌, ◌≢◌, refl, length, arith, str_eq}
use datasaver.Base.Int.{pos}
use datasaver.Base.Sorting.Insertion.{insertion}
use datasaver.Metadata.{BackupMetadata}
use datasaver.Storage.Laws.{IsMap}
use datasaver.Storage.Local.{modified_at, local_storage, exists, size, read}
use datasaver.Storage.Local.Laws.{IsSound, content_at, local_storage-IsMap}
use datasaver.Validator.{ValidationResult, first_data_file, validate}
use datasaver.Validator.Laws.{validate_valid}
use datasaver.Tests.Data.{
  slashes, base, local, all_names, joins_apart, local-IsMap, disk, disk-IsSound, tools, backup_of,
}

local_storage-IsMap_example :
    IsMap
      (local_storage slashes (insertion modified_at) base)
      IsSound
      all_names
      (content_at slashes (insertion modified_at) base)
local_storage-IsMap_example =
    local_storage-IsMap slashes (insertion modified_at) base all_names joins_apart

abbrev stored : BackupMetadata
stored = backup_of (bytes "a") 8 (bytes "a.dump" ∷ [])

abbrev fine : ValidationResult
fine = record {
  backup_id = bytes "a";
  valid = true;
  file_exists = true;
  size_match = true;
  checksum_ok = true;
  errors = [];
}

validates : validate local tools (λ z n. []) stored disk ≡ ok fine
unfolding validate str_eq exists size read
validates = refl

has_sum : bytes "sum" ≢ []
has_sum e = ground arith

validate_valid_example :
    (text : Str) × (content_at slashes (insertion modified_at) base disk (bytes "a.dump")
      ≡ some text)
    × (pos (length text) ≡ pos 2)
    × (tools.checksum text ≡ ok (bytes "sum"))
unfolding first_data_file str_eq
validate_valid_example =
    validate_valid local-IsMap tools (λ z n. []) stored disk disk-IsSound fine validates refl refl
      has_sum
