-- ===== src/Tests/Bucket.antt =====
-- A bucket that is a list of keys and texts, as an example for the S3 backend.
use datasaver.Base.{
  Bool, true, false, Str, bytes, List, [], ◌∷◌, Option, none, some, if◌then◌else◌, str_eq,
  str_eq_iff, Result, ok, err, length, map, ◌≡◌, refl, arith, Bool-cases, inl, inr, subst,
}
use datasaver.Base.Sorting.Insertion.{insertion}
use datasaver.Clock.{zero_time}
use datasaver.Storage.Laws.{IsMap}
use datasaver.Storage.Local.{modified_at}
use datasaver.Storage.S3.{S3Error, ObjectInfo, Client, s3_storage}
use datasaver.Storage.S3.Laws.{IsBucket, s3_storage-IsMap}

abbrev Keys : Type 0
Keys = List (Str × Str)

unfoldable content : Keys → Str → Option Str
content [] p = none
content ((q, text) ∷ b) p = let rest = content b p in if str_eq q p then some text else rest

unfoldable removed : Str → Keys → Keys
removed p [] = []
removed p ((q, text) ∷ b) = let rest = removed p b in if str_eq p q then rest else (q, text) ∷ rest

abbrev missing : S3Error
missing = record { code = bytes "NoSuchKey"; text = bytes "missing" }

abbrev info_of : Str → Str → ObjectInfo
info_of p text = record { key = p; size = length text; last_modified = zero_time }

unfoldable get : Str → Keys → Result S3Error (Result Str Str)
unfolding content
get p b = ok (elim (content b p) [ none ↦ err (bytes "missing") | some text ↦ ok text ])

unfoldable stat : Str → Keys → Result S3Error ObjectInfo
unfolding content
stat p b = elim (content b p) [ none ↦ err missing | some text ↦ ok (info_of p text) ]

abbrev keys : Client
keys = record {
  Bucket = Keys;
  put_object = λ p text b. (ok tt, (p, text) ∷ b);
  get_object = get;
  stat_object = stat;
  remove_object = λ p b. (ok tt, removed p b);
  list_objects = λ prefix b. map (λ (p, text). ok (info_of p text)) b;
}

content-removed :
    (p : Str) (b : Keys) (q : Str)
    → content (removed p b) q ≡ (if str_eq p q then none else content b q)
unfolding content removed
content-removed p [] q = ground arith
content-removed p ((r, text) ∷ b) q = elim (Bool-cases (str_eq p r)) [
  | inl same ↦ rw same (
      subst
        (λ x.
          content (removed p b) q
          ≡ (if str_eq p q then none else if str_eq x q then some text else content b q))
        ((str_eq_iff p r).0 same)
        (hidden (str_eq p q) (content (removed p b) q) none (some text) (content b q)
          (content-removed p b q)))
  | inr apart ↦ rw apart (elim (Bool-cases (str_eq r q)) [
    | inr other ↦ rw other (content-removed p b q)
    | inl found ↦
        rw found (rw (subst (λ x. str_eq p x ≡ false) ((str_eq_iff r q).0 found) apart) refl)
  ])
]
  where
    hidden :
        (c : Bool) (x y z w : Option Str)
        → x ≡ (if c then y else w)
        → x ≡ (if c then y else if c then z else w)
    hidden c x y z w h = ground (arith, h)

keys-IsBucket : IsBucket keys (λ b. Unit) content
unfolding content get stat
keys-IsBucket = record {
  put_ok = λ p text b u. refl;
  put_Up = λ p text b u. tt;
  put_content = λ p text b q u. refl;
  get_some = λ p text b u h. rw h refl;
  get_lazy = λ p b u. (_, refl);
  stat_some = λ p text b u h. (info_of p text, rw (stat, h) refl, refl);
  stat_none = λ p b u h. (missing, rw (stat, h) refl, refl);
  remove_ok = λ p b u. refl;
  remove_Up = λ p b u. tt;
  remove_content = λ p b q u. content-removed p b q;
}

s3_storage-IsMap_example :
    IsMap (s3_storage keys (insertion modified_at)) (λ b. Unit) (λ p. true) content
s3_storage-IsMap_example = s3_storage-IsMap keys-IsBucket (insertion modified_at)
