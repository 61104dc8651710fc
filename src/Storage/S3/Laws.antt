-- ===== src/Storage/S3/Laws.antt =====
-- The S3 backend is a map from paths to contents where the service behaves as S3 documents it.
use datasaver.Base.{
  true, false, Str, bytes, Option, none, some, if◌then◌else◌, str_eq, str_eq_refl, ok, err, length,
  ◌≡◌, refl, arith, Option-cases, inl, inr,
}
use datasaver.Base.Sorting.{Sorter}
use datasaver.Storage.{not_found, Reader}
use datasaver.Storage.Laws.{IsMap}
use datasaver.Storage.Local.{modified_at}
use datasaver.Storage.S3.{
  S3Error, ObjectInfo, Client, write, read, delete, exists, size, s3_storage,
}

-- A bucket that answers: an object can be read and has its size as soon as it was put, a missing
-- key is told by its code, and the removal of a missing key is no error. GetObject makes no
-- request, so that a missing key shows only in StatObject.
pub record IsBucket (c : Client) (Up : c.Bucket → Type 0) (content : c.Bucket → Str → Option Str)
    : Type 0 where
  pub put_ok : (p text : Str) (b : c.Bucket) → Up b → (c.put_object p text b).0 ≡ ok tt
  pub put_Up : (p text : Str) (b : c.Bucket) → Up b → Up (c.put_object p text b).1
  pub put_content :
      (p text : Str) (b : c.Bucket) (q : Str)
      → Up b
      → content (c.put_object p text b).1 q ≡ (if str_eq p q then some text else content b q)
  pub get_some :
      (p text : Str) (b : c.Bucket)
      → Up b
      → content b p ≡ some text
      → c.get_object p b ≡ ok (ok text)
  pub get_lazy : (p : Str) (b : c.Bucket) → Up b → (r : Reader) × (c.get_object p b ≡ ok r)
  pub stat_some :
      (p text : Str) (b : c.Bucket)
      → Up b
      → content b p ≡ some text
      → (info : ObjectInfo) × (c.stat_object p b ≡ ok info) × (info.size ≡ length text)
  pub stat_none :
      (p : Str) (b : c.Bucket)
      → Up b
      → content b p ≡ none
      → (e : S3Error) × (c.stat_object p b ≡ err e) × (e.code ≡ bytes "NoSuchKey")
  pub remove_ok : (p : Str) (b : c.Bucket) → Up b → (c.remove_object p b).0 ≡ ok tt
  pub remove_Up : (p : Str) (b : c.Bucket) → Up b → Up (c.remove_object p b).1
  pub remove_content :
      (p : Str) (b : c.Bucket) (q : Str)
      → Up b
      → content (c.remove_object p b).1 q ≡ (if str_eq p q then none else content b q)

module _ {c : Client} {Up : c.Bucket → Type 0} {content : c.Bucket → Str → Option Str}
    (law : IsBucket c Up content) (s : Sorter modified_at) where
  module _ (p : Str) (b : c.Bucket) (up : Up b) where
    read_lem : read c s p b ≡ elim (content b p) [ none ↦ err not_found | some text ↦ ok (ok text) ]
    unfolding read
    read_lem = elim (Option-cases (content b p)) [
      | inl missing ↦
          let (r, got) = law.get_lazy p b up in
          let (e, refused, code) = law.stat_none p b up missing in
          rw (got, refused, read, code, missing, str_eq_refl (bytes "NoSuchKey")) refl
      | inr (text, there) ↦
          let (info, stat, _) = law.stat_some p text b up there in
          rw (law.get_some p text b up there, stat, read, there) refl
    ]

    exists_lem : exists c s p b ≡ ok (elim (content b p) [ none ↦ false | some text ↦ true ])
    unfolding exists
    exists_lem = elim (Option-cases (content b p)) [
      | inl missing ↦
          let (e, refused, code) = law.stat_none p b up missing in
          rw (refused, exists, code, missing, str_eq_refl (bytes "NoSuchKey")) refl
      | inr (text, there) ↦
          let (info, stat, _) = law.stat_some p text b up there in rw (stat, exists, there) refl
    ]

    size_lem :
        size c s p b ≡ elim (content b p) [ none ↦ err not_found | some text ↦ ok (length text) ]
    unfolding size
    size_lem = elim (Option-cases (content b p)) [
      | inl missing ↦
          let (e, refused, code) = law.stat_none p b up missing in
          rw (refused, size, code, missing, str_eq_refl (bytes "NoSuchKey")) refl
      | inr (text, there) ↦
          let (info, stat, long) = law.stat_some p text b up there in
          rw (stat, size, there, long) refl
    ]

    pub write_lem : (text : Str) → write c s p (ok text) b ≡ (ok tt, (c.put_object p text b).1)
    unfolding write
    write_lem text = ground (arith, law.put_ok p text b up)

    pub delete_lem : delete c s p b ≡ (ok tt, (c.remove_object p b).1)
    unfolding delete
    delete_lem = ground (arith, law.remove_ok p b up)

  -- On a bucket that answers as S3 documents it, the S3 backend is a map from paths to contents.
  pub s3_storage-IsMap : IsMap (s3_storage c s) Up (λ p. true) content
  s3_storage-IsMap = record {
    read_view = λ p b up. read_lem p b up;
    write_view = λ p text b q up _ _. rw (write_lem p b up text) (law.put_content p text b q up);
    write_ok = λ p text b up. rw (write_lem p b up text);
    write_Good = λ p text b up. rw (write_lem p b up text) (law.put_Up p text b up);
    delete_view = λ p b q up _ _. rw (delete_lem p b up) (law.remove_content p b q up);
    delete_ok = λ p b up. rw (delete_lem p b up);
    delete_Good = λ p b up. rw (delete_lem p b up) (law.remove_Up p b up);
    exists_view = λ p b up. exists_lem p b up;
    size_view = λ p b up. size_lem p b up;
  }
