-- ===== src/Storage/Local/Laws.antt =====
-- The local backend is a map from paths to contents, and how it behaves where the disk fails.
use datasaver.Base.{
  Bool, true, false, Str, [], Option, none, some, if◌then◌else◌, str_eq, str_eq_iff, ok, err,
  length, ◌≡◌, arith,
}
use datasaver.Base.Sorting.{Sorter}
use datasaver.Storage.{not_found}
use datasaver.Storage.Laws.{IsMap}
use datasaver.Storage.Disk.{
  Disk, Call, mkdir_all, create, copy, open_file, remove, stat, insert, erase, put, lookup,
  lookup-insert, lookup-erase,
}
use datasaver.Storage.Local.{
  FilePaths, modified_at, write, read, delete, exists, size, local_storage, full_path,
}

-- No call fails.
abbrev pub IsSound : Disk → Type 0
IsSound d = (c : Call) (p : Str) → d.fault c p ≡ none

-- Join tells the names of a set apart.
abbrev pub JoinsApart : FilePaths → Str → (Str → Bool) → Type 0
JoinsApart paths base names =
    (p q : Str)
    → names p ≡ true
    → names q ≡ true
    → str_eq (paths.join base p) (paths.join base q) ≡ str_eq p q

module _ (paths : FilePaths) (s : Sorter modified_at) (base_path : Str) where
  abbrev pub content_at : Disk → Str → Option Str
  content_at d p = elim (lookup (full_path paths s base_path p) d.files) [
    | none ↦ none
    | some f ↦ some f.content
  ]

  module _ (d : Disk) (sound : IsSound d) (p : Str) where
    read_lem :
        read paths s base_path p d
        ≡ elim (content_at d p) [ none ↦ err not_found | some text ↦ ok (ok text) ]
    unfolding read
    read_lem = ground (arith, sound open_file (full_path paths s base_path p))

    exists_lem :
        exists paths s base_path p d
        ≡ ok (elim (content_at d p) [ none ↦ false | some text ↦ true ])
    unfolding exists
    exists_lem = ground (arith, sound stat (full_path paths s base_path p))

    size_lem :
        size paths s base_path p d
        ≡ elim (content_at d p) [ none ↦ err not_found | some text ↦ ok (length text) ]
    unfolding size
    size_lem = ground (arith, sound stat (full_path paths s base_path p))

    pub write_lem :
        (text : Str)
        → write paths s base_path p (ok text) d ≡ (
          ok tt,
          put (full_path paths s base_path p) text (put (full_path paths s base_path p) [] d),
        )
    unfolding write
    write_lem text =
        let full = full_path paths s base_path p in
        ground (arith, sound mkdir_all (paths.dir full), sound create full, sound copy full)

    pub delete_lem : delete paths s base_path p d ≡ (
      ok tt,
      elim (lookup (full_path paths s base_path p) d.files) [
        | none ↦ d
        | some f ↦ record d { files = erase (full_path paths s base_path p) d.files }
      ],
    )
    unfolding delete
    delete_lem = ground (arith, sound remove (full_path paths s base_path p))

  module _ (names : Str → Bool) (apart : JoinsApart paths base_path names) (d : Disk)
      (sound : IsSound d) (p q : Str) (np : names p ≡ true) (nq : names q ≡ true) where
    content_at-write :
        (text : Str)
        → content_at (write paths s base_path p (ok text) d).1 q
          ≡ (if str_eq p q then some text else content_at d q)
    content_at-write text =
        let at = full_path paths s base_path in
        let made = insert (at p) (record { content = []; modified = d.clock }) d.files in
        rw (write_lem d sound p text) (
          ground (
            arith,
            apart p q np nq,
            lookup-insert (at q) (at p) (record { content = text; modified = d.clock }) made,
            lookup-insert (at q) (at p) (record { content = []; modified = d.clock }) d.files,
          ))

    content_at-delete :
        content_at (delete paths s base_path p d).1 q
        ≡ (if str_eq p q then none else content_at d q)
    content_at-delete = rw (delete_lem d sound p) (
        ground (
          arith,
          apart p q np nq,
          str_eq_iff (full_path paths s base_path p) (full_path paths s base_path q),
          lookup-erase (full_path paths s base_path q) (full_path paths s base_path p) d.files,
        ))

  module _ (names : Str → Bool) (apart : JoinsApart paths base_path names) where
    -- On a disk without faults the local backend is a map from paths to contents.
    pub local_storage-IsMap : IsMap (local_storage paths s base_path) IsSound names content_at
    local_storage-IsMap = record {
      read_view = λ p d h. read_lem d h p;
      write_view = λ p text d q h np nq. content_at-write names apart d h p q np nq text;
      write_ok = λ p text d h. rw (write_lem d h p text);
      write_Good = λ p text d h. rw (write_lem d h p text) h;
      delete_view = λ p d q h np nq. content_at-delete names apart d h p q np nq;
      delete_ok = λ p d h. rw (delete_lem d h p);
      delete_Good = λ p d h. λ c r. rw (delete_lem d h p) (ground (arith, h c r));
      exists_view = λ p d h. exists_lem d h p;
      size_view = λ p d h. size_lem d h p;
    }
