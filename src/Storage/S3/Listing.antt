-- ===== src/Storage/S3/Listing.antt =====
-- List of internal/storage/s3.go shows every object of the bucket.
use mathlib.Core.List.{Mem, Memᴰ}
use mathlib.Core.List.Perm
use datasaver.Base.{true, false, Str, List, [], ◌∷◌, Option, some, ok, map, ◌≡◌, refl}
use datasaver.Base.Sorting.{Sorter}
use datasaver.Storage.{FileInfo}
use datasaver.Storage.Laws.{IsListed}
use datasaver.Storage.Local.{modified_at}
use datasaver.Storage.S3.{ObjectInfo, Client, collect, list, s3_storage}
use datasaver.Storage.S3.Laws.{IsBucket, write_lem, delete_lem}

abbrev info_of : ObjectInfo → FileInfo
info_of o = record { path = o.key; size = o.size; last_modified = o.last_modified; is_dir = false }

-- A bucket that answers lists every key that has a content, without an error.
pub record IsListing (c : Client) (Up : c.Bucket → Type 0) (content : c.Bucket → Str → Option Str)
    : Type 0 where
  pub list_all :
      (b : c.Bucket)
      → Up b
      → (objects : List ObjectInfo) × (c.list_objects [] b ≡ map ok objects)
        × ((p text : Str)
            → content b p ≡ some text
            → (o : ObjectInfo) × Memᴰ o objects × (o.key ≡ p))

Memᴰ-info_of :
    (o : ObjectInfo) (objects : List ObjectInfo)
    → Memᴰ o objects
    → Memᴰ (info_of o) (map info_of objects)
Memᴰ-info_of o [] m = elim m [ ]
Memᴰ-info_of o (x ∷ xs) (Memᴰ.head e) = Memᴰ.head (rw e)
Memᴰ-info_of o (x ∷ xs) (Memᴰ.tail m) = Memᴰ.tail (Memᴰ-info_of o xs m)

module _ {c : Client} {Up : c.Bucket → Type 0} {content : c.Bucket → Str → Option Str}
    (law : IsBucket c Up content) (listing : IsListing c Up content) (s : Sorter modified_at) where
  collect-ok :
      (prefix : Str) (objects : List ObjectInfo)
      → collect c s prefix (map ok objects) ≡ ok (map info_of objects)
  unfolding collect
  collect-ok prefix [] = refl
  collect-ok prefix (o ∷ objects) = rw (collect-ok prefix objects) refl

  list_lem :
      (b : c.Bucket)
      → Up b
      → (files : List FileInfo) × (list c s [] b ≡ ok files)
        × ((p text : Str) → content b p ≡ some text → (f : FileInfo) × Mem f files × (f.path ≡ p))
  unfolding list
  list_lem b up =
      let (objects, all, found) = listing.list_all b up in
      (
        s.sort (map info_of objects),
        rw (all, list, collect-ok [] objects) refl,
        λ p text h.
            let (o, m, e) = found p text h in
            (
              info_of o,
              (Perm.mem_iff (s.sort-perm (map info_of objects))).1 ∣ Memᴰ-info_of o objects m ∣₁,
              e,
            ),
      )

  -- On a bucket that answers and lists what it holds, List of the S3 backend shows every key that
  -- has a content.
  pub s3_storage-IsListed : IsListed (s3_storage c s) Up (λ p. true) content
  s3_storage-IsListed = record {
    list_view = λ b up.
        let (files, listed, found) = list_lem b up in (files, listed, λ p text n h. found p text h);
    write_Listable = λ p text b up. rw (write_lem law s p b up text) (law.put_Up p text b up);
    delete_Listable = λ p b up. rw (delete_lem law s p b up) (law.remove_Up p b up);
  }
