-- ===== src/Storage/Local/Listing.antt =====
-- List of internal/storage/local.go shows every file that the backend holds.
use mathlib.Core.List.{Mem, Memᴰ}
use mathlib.Core.List.Perm
use datasaver.Base.{
  Bool, true, false, Str, List, [], ◌∷◌, some, str_eq, str_eq_iff, ok, length, ◌≡◌, arith, inl, inr,
  Bool-cases, Option-cases, refl,
}
use datasaver.Base.Sorting.{Sorter}
use datasaver.Storage.{FileInfo}
use datasaver.Storage.Laws.{IsListed}
use datasaver.Storage.Disk.{Disk, File, lookup, walk}
use datasaver.Storage.Local.{FilePaths, modified_at, walk_files, list, local_storage}
use datasaver.Storage.Local.Laws.{IsSound, content_at, write_lem, delete_lem}

-- What filepath.Rel and filepath.Walk give for the files under a base path: a relative path for
-- each, and for what Join made of one of these names, that name.
pub record Relates (paths : FilePaths) (base : Str) (names : Str → Bool) : Type 0 where
  pub rel_under :
      (full : Str) → paths.under base full ≡ true → (p : Str) × (paths.rel base full ≡ ok p)
  pub under_join : (p : Str) → names p ≡ true → paths.under base (paths.join base p) ≡ true
  pub rel_join : (p : Str) → names p ≡ true → paths.rel base (paths.join base p) ≡ ok p

-- No call fails, and the base directory is there.
abbrev pub IsListable : Str → Disk → Type 0
IsListable base d = IsSound d × (d.has_dir base ≡ true)

module _ (paths : FilePaths) (s : Sorter modified_at) (base : Str) (names : Str → Bool)
    (relates : Relates paths base names) where
  walk_files-lookup :
      (fs : List (Str × File))
      → (infos : List FileInfo) × (walk_files paths s base [] fs ≡ ok infos)
        × ((p : Str) (file : File)
            → names p ≡ true
            → lookup (paths.join base p) fs ≡ some file
            → (f : FileInfo) × Memᴰ f infos × (f.path ≡ p))
  unfolding walk_files lookup str_eq
  walk_files-lookup [] = ([], refl, λ p file n h. absurd (ground (arith, h)))
  walk_files-lookup ((full, g) ∷ fs) =
      let (infos, walked, found) = walk_files-lookup fs in
      elim (Bool-cases (paths.under base full)) [
        | inr beside ↦ (
          infos,
          rw (beside, walk_files, walked) refl,
          λ p file n h. found p file n (
              ground
                (arith, h, beside, relates.under_join p n, str_eq_iff full (paths.join base p))),
        )
        | inl inside ↦
            let (name, related) = relates.rel_under full inside in
            let here : FileInfo = record {
              path = name;
              size = length g.content;
              last_modified = g.modified;
              is_dir = false;
            } in
            (
              here ∷ infos,
              rw (inside, related, walked, walk_files) refl,
              λ p file n h. elim (Bool-cases (str_eq full (paths.join base p))) [
                | inr other ↦
                    let (f, m, e) = found p file n (rw (other, lookup) at h) in (f, Memᴰ.tail m, e)
                | inl same ↦ (
                  here,
                  Memᴰ.head refl,
                  cc (related, (str_eq_iff full (paths.join base p)).0 same, relates.rel_join p n),
                )
              ],
            )
      ]

  list_lem :
      (d : Disk)
      → IsListable base d
      → (files : List FileInfo) × (list paths s base [] d ≡ ok files)
        × ((p text : Str)
            → names p ≡ true
            → content_at paths s base d p ≡ some text
            → (f : FileInfo) × Mem f files × (f.path ≡ p))
  unfolding list
  list_lem d (sound, there) =
      let (infos, walked, found) = walk_files-lookup d.files in
      (
        s.sort infos,
        rw (sound walk base, there, walked, list) refl,
        λ p text n h. elim (Option-cases (lookup (paths.join base p) d.files)) [
          | inl missing ↦ absurd (ground (arith, h, missing))
          | inr (file, is_there) ↦
              let (f, m, e) = found p file n is_there in
              (f, (Perm.mem_iff (s.sort-perm infos)).1 ∣ m ∣₁, e)
        ],
      )

  -- On a disk without faults on which the base directory is there, List of the local backend shows
  -- every name that has a content.
  pub local_storage-IsListed :
      IsListed (local_storage paths s base) (IsListable base) names (content_at paths s base)
  local_storage-IsListed = record {
    list_view = list_lem;
    write_Listable = λ p text d h. rw (write_lem paths s base d h.0 p text) h;
    delete_Listable = λ p d h. (
      λ c r. rw (delete_lem paths s base d h.0 p) (ground (arith, h.0 c r)),
      rw (delete_lem paths s base d h.0 p) (ground (arith, h.1)),
    );
  }
