-- ===== src/Storage/Local.antt =====
-- internal/storage/local.go: the backend on a directory of the disk.
pub mod Laws
pub mod Listing
use datasaver.Base.{
  ℕ, Bool, true, false, not, ◌&&◌, Str, bytes, List, [], ◌∷◌, ◌++◌, Option, none, some,
  if◌then◌else◌, str_eq, Result, ok, err, length, take, leb,
}
use datasaver.Base.Sorting.{Sorter}
use datasaver.Clock.{Time}
use datasaver.Storage.{Backend, FileInfo, StorageError, not_found, cause, Reader}
use datasaver.Storage.Disk.{
  Disk, File, OsError, not_exist, other, mkdir_all, create, copy, open_file, remove, stat, walk,
  insert, erase, put, found,
}

-- Package path/filepath: Join, Dir, Rel, and which paths Walk reaches from a root.
pub record FilePaths : Type 0 where
  pub join : Str → Str → Str
  pub dir : Str → Str
  pub rel : Str → Str → Result Str Str
  pub under : Str → Str → Bool

abbrev pub modified_at : FileInfo → ℕ
modified_at f = f.last_modified.nanos

abbrev pub failure : Str → Str → Str → StorageError
failure op path e = record { op = op; path = path; inner = cause e }

-- len(path) >= len(prefix) && path[:len(prefix)] == prefix
unfoldable pub match_prefix : Str → Str → Bool
match_prefix path prefix =
    leb (length prefix) (length path) && str_eq (take (length prefix) path) prefix

module _ (paths : FilePaths) (s : Sorter modified_at) (base_path : Str) where
  abbrev pub full_path : Str → Str
  full_path path = paths.join base_path path

  -- io.Copy into the file that was created. A failure leaves what was copied.
  unfoldable pub copy_to : Str → Reader → Disk → Result Str (Unit {0}) × Disk
  copy_to full reader d = elim reader [
    | err e ↦ (err e, d)
    | ok text ↦ elim (d.fault copy full) [
      | some e ↦ (err e, put full (take (d.copied full) text) d)
      | none ↦ (ok tt, put full text d)
    ]
  ]

  unfoldable pub write : Str → Reader → Disk → Result StorageError (Unit {0}) × Disk
  unfolding copy_to
  write path reader d =
      let full = full_path path in
      let op = bytes "write" in
      elim (d.fault mkdir_all (paths.dir full)) [
        | some e ↦ (err (failure op path e), d)
        | none ↦ elim (d.fault create full) [
          | some e ↦ (err (failure op path e), d)
          | none ↦
              let (r, d') = copy_to full reader (put full [] d) in
              elim r [ err e ↦ (err (failure op path e), d') | ok u ↦ (ok tt, d') ]
        ]
      ]

  unfoldable pub read : Str → Disk → Result StorageError Reader
  unfolding found
  read path d = elim (found open_file (full_path path) d) [
    | ok f ↦ ok (ok f.content)
    | err not_exist ↦ err not_found
    | err (other e) ↦ err (failure (bytes "read") path e)
  ]

  unfoldable pub delete : Str → Disk → Result StorageError (Unit {0}) × Disk
  unfolding found
  delete path d = elim (found remove (full_path path) d) [
    | ok f ↦ (ok tt, record d { files = erase (full_path path) d.files })
    | err not_exist ↦ (ok tt, d)
    | err (other e) ↦ (err (failure (bytes "delete") path e), d)
  ]

  unfoldable pub exists : Str → Disk → Result StorageError Bool
  unfolding found
  exists path d = elim (found stat (full_path path) d) [
    | ok f ↦ ok true
    | err not_exist ↦ ok false
    | err (other e) ↦ err (failure (bytes "exists") path e)
  ]

  unfoldable pub size : Str → Disk → Result StorageError ℕ
  unfolding found
  size path d = elim (found stat (full_path path) d) [
    | ok f ↦ ok (length f.content)
    | err not_exist ↦ err not_found
    | err (other e) ↦ err (failure (bytes "size") path e)
  ]

  -- The function that List hands to filepath.Walk, on the files of the disk one by one. The walk
  -- visits what lies under the base path, and stops at the first error.
  unfoldable pub walk_files : Str → List (Str × File) → Result Str (List FileInfo)
  unfolding match_prefix
  walk_files prefix [] = ok []
  walk_files prefix ((full, f) ∷ fs) =
      let rest = walk_files prefix fs in
      if not (paths.under base_path full) then rest else elim (paths.rel base_path full) [
        | err e ↦ err e
        | ok name ↦ elim rest [
          | err e ↦ err e
          | ok infos ↦ ok (
              if not (str_eq prefix []) && not (match_prefix name prefix)
              then infos
              else record {
                path = name;
                size = length f.content;
                last_modified = f.modified;
                is_dir = false;
              }
                ∷ infos)
        ]
      ]

  unfoldable pub list : Str → Disk → Result StorageError (List FileInfo)
  unfolding walk_files
  list prefix d = elim (d.fault walk base_path) [
    | some e ↦ err (failure (bytes "list") (full_path prefix) e)
    | none ↦ if not (d.has_dir base_path) then ok [] else elim (walk_files prefix d.files) [
      | err e ↦ err (failure (bytes "list") (full_path prefix) e)
      | ok infos ↦ ok (s.sort infos)
    ]
  ]

  abbrev pub local_storage : Backend
  local_storage = record {
    State = Disk;
    write = write;
    read = read;
    delete = delete;
    list = list;
    exists = exists;
    size = size;
  }

-- NewLocalStorage, up to the disk: it gives the base path back.
unfoldable pub new_local_storage : Str → Disk → Result Str Str
new_local_storage base_path d = elim (d.fault mkdir_all base_path) [
  | some e ↦ err (bytes "failed to create storage directory: " ++ e)
  | none ↦ ok base_path
]
