-- ===== src/Storage/S3.antt =====
-- internal/storage/s3.go: the backend on a bucket. The client of minio-go is a parameter.
pub mod Laws
pub mod Listing
use datasaver.Base.{
  ℕ, Bool, true, false, Str, bytes, List, [], ◌∷◌, if◌then◌else◌, str_eq, trim_prefix, Result, ok,
  err,
}
use datasaver.Base.Sorting.{Sorter}
use datasaver.Clock.{Time}
use datasaver.Storage.{Backend, FileInfo, StorageError, S3Config, not_found, Reader}
use datasaver.Storage.Local.{modified_at, failure}

-- An error of the client, with the code that minio.ToErrorResponse finds in it.
pub record S3Error : Type 0 where
  pub code : Str
  pub text : Str

pub record ObjectInfo : Type 0 where
  pub key : Str
  pub size : ℕ
  pub last_modified : Time

pub record Client : Type 1 where
  pub Bucket : Type 0
  pub put_object : Str → Str → Bucket → Result S3Error (Unit {0}) × Bucket
  pub get_object : Str → Bucket → Result S3Error Reader
  pub stat_object : Str → Bucket → Result S3Error ObjectInfo
  pub remove_object : Str → Bucket → Result S3Error (Unit {0}) × Bucket
  pub list_objects : Str → Bucket → List (Result S3Error ObjectInfo)

-- The endpoint that NewS3Storage connects to.
unfoldable pub s3_endpoint : S3Config → Str
s3_endpoint cfg =
    let endpoint = if str_eq cfg.endpoint [] then bytes "s3.amazonaws.com" else cfg.endpoint in
    trim_prefix (trim_prefix endpoint (bytes "https://")) (bytes "http://")

module _ (c : Client) (s : Sorter modified_at) where
  open c use {Bucket, put_object, get_object, stat_object, remove_object, list_objects}

  unfoldable pub write : Str → Reader → Bucket → Result StorageError (Unit {0}) × Bucket
  write path reader b = elim reader [
    | err e ↦ (err (failure (bytes "write") path e), b)
    | ok text ↦
        let (r, b') = put_object path text b in
        elim r [ err e ↦ (err (failure (bytes "write") path e.text), b') | ok u ↦ (ok tt, b') ]
  ]

  -- GetObject is lazy, and Stat on the object makes the request.
  unfoldable pub read : Str → Bucket → Result StorageError Reader
  read path b = elim (get_object path b) [
    | err e ↦ err (failure (bytes "read") path e.text)
    | ok object ↦ elim (stat_object path b) [
      | ok info ↦ ok object
      | err e ↦
          if str_eq e.code (bytes "NoSuchKey")
          then err not_found
          else err (failure (bytes "read") path e.text)
    ]
  ]

  unfoldable pub delete : Str → Bucket → Result StorageError (Unit {0}) × Bucket
  delete path b =
      let (r, b') = remove_object path b in
      elim r [ err e ↦ (err (failure (bytes "delete") path e.text), b') | ok u ↦ (ok tt, b') ]

  -- The loop over the channel of ListObjects.
  unfoldable pub collect :
      Str → List (Result S3Error ObjectInfo) → Result StorageError (List FileInfo)
  collect prefix [] = ok []
  collect prefix (err e ∷ objects) = err (failure (bytes "list") prefix e.text)
  collect prefix (ok o ∷ objects) = elim (collect prefix objects) [
    | err e ↦ err e
    | ok infos ↦ ok (
        record { path = o.key; size = o.size; last_modified = o.last_modified; is_dir = false }
        ∷ infos)
  ]

  unfoldable pub list : Str → Bucket → Result StorageError (List FileInfo)
  unfolding collect
  list prefix b = elim (collect prefix (list_objects prefix b)) [
    | err e ↦ err e
    | ok infos ↦ ok (s.sort infos)
  ]

  unfoldable pub exists : Str → Bucket → Result StorageError Bool
  exists path b = elim (stat_object path b) [
    | ok info ↦ ok true
    | err e ↦
        if str_eq e.code (bytes "NoSuchKey")
        then ok false
        else err (failure (bytes "exists") path e.text)
  ]

  unfoldable pub size : Str → Bucket → Result StorageError ℕ
  size path b = elim (stat_object path b) [
    | ok info ↦ ok info.size
    | err e ↦
        if str_eq e.code (bytes "NoSuchKey")
        then err not_found
        else err (failure (bytes "size") path e.text)
  ]

  abbrev pub s3_storage : Backend
  s3_storage = record {
    State = Bucket;
    write = write;
    read = read;
    delete = delete;
    list = list;
    exists = exists;
    size = size;
  }
