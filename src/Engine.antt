-- ===== src/Engine.antt =====
-- internal/backup/engine.go: the backup engine over any storage backend.
pub mod Run
pub mod Listing
pub mod Cleaning
pub mod Outcome
pub mod Stored
pub mod Dumped
pub mod Frame
pub mod History
pub mod Sparing
pub mod Interleaved
pub mod Validated
pub mod Overlap
pub mod Flagged
pub mod Verified
use datasaver.Base.{
  ℕ, ◌+◌, Bool, true, false, not, ◌&&◌, Str, bytes, List, [], ◌∷◌, ◌++◌, Option, none, some,
  if◌then◌else◌, str_eq, has_suffix, Result, ok, err, map_err, ◌>>=◌, suc,
}
use datasaver.Base.Int.{ℤ, pos}
use datasaver.Base.Sorting.{Sorter}
use datasaver.Clock.{Time}
use datasaver.Metadata.{BackupMetadata}
use datasaver.Storage.{Backend, FileInfo, StorageError}
use datasaver.Rotation.Policy.{Policy}
use datasaver.Rotation.Gfs.{stamp, determine_backups_to_delete}
use datasaver.Validator.{meta_suffix}

-- encoding/json for the metadata, and the texts of errors.
pub record Codec : Type 0 where
  pub to_json : BackupMetadata → Result Str Str
  pub parse : Str → Result Str BackupMetadata
  pub storage_text : StorageError → Str

module _ (b : Backend) (k : Codec) where
  -- What the loop of ListBackups adds for one file.
  unfoldable pub listed : b.State → Str → Option BackupMetadata
  listed s path = if not (has_suffix path meta_suffix) then none else elim (b.read path s) [
    | err e ↦ none
    | ok (err e) ↦ none
    | ok (ok text) ↦ elim (k.parse text) [ err e ↦ none | ok m ↦ some m ]
  ]

  unfoldable pub list_loop : b.State → List FileInfo → List BackupMetadata
  unfolding listed
  list_loop s [] = []
  list_loop s (f ∷ fs) =
      let rest = list_loop s fs in elim (listed s f.path) [ none ↦ rest | some m ↦ m ∷ rest ]

  unfoldable pub list_backups : b.State → Result StorageError (List BackupMetadata)
  unfolding list_loop
  list_backups s = elim (b.list [] s) [ err e ↦ err e | ok files ↦ ok (list_loop s files) ]

  unfoldable pub get_backup : Str → b.State → Result Str BackupMetadata
  get_backup id s = elim (b.read (id ++ meta_suffix) s) [
    | err e ↦ err (bytes "backup not found: " ++ id)
    | ok (err e) ↦ err (bytes "failed to read metadata: " ++ e)
    | ok (ok text) ↦ k.parse text
  ]

  -- The loops of Cleanup. A failed deletion is logged and passed over.
  unfoldable pub delete_files : List Str → b.State → b.State
  delete_files [] s = s
  delete_files (f ∷ fs) s = delete_files fs (b.delete f s).1

  unfoldable pub delete_backups : List BackupMetadata → b.State → ℕ × b.State
  unfolding delete_files
  delete_backups [] s = (0, s)
  delete_backups (m ∷ ms) s =
      let (n, s') = delete_backups ms (delete_files m.files s) in (suc n, s')

  unfoldable pub cleanup : Sorter stamp → Policy → Time → b.State → Result Str ℕ × b.State
  unfolding list_backups delete_backups
  cleanup sorter p now s = elim (list_backups s) [
    | err e ↦ (err (bytes "failed to list backups: " ++ k.storage_text e), s)
    | ok ms ↦
        let (n, s') = delete_backups (determine_backups_to_delete sorter p now ms) s in (ok n, s')
  ]
