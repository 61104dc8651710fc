-- ===== src/Rotation/Gfs/Deletion.antt =====
-- What internal/rotation/gfs.go deletes of a list of backups, in any order of equal timestamps.
use mathlib.Core.List.{map}
use datasaver.Base.{
  suc, ◌+◌, ◌≤◌, ◌≡◌, refl, ◌∙◌, ap, Bool, true, false, not, ◌||◌, Str, List, [], ◌∷◌, length,
  count, select, take, All, All-map, arith, has_str, str_eq, str_eq_iff, Bool-cases, inl, inr,
}
use datasaver.Base.Counting.{
  count-eq-zero→All, count-perm, count-select-le, count-select_of_imp, length-select, count-or-le,
  count_mono, count-add-count-not, length-perm,
}
use datasaver.Base.Sorting.{Sorter}
use datasaver.Base.Int.{pos_part}
use datasaver.Clock.{Time}
use datasaver.Metadata.{BackupMetadata}
use datasaver.Rotation.Policy.{Policy}
use datasaver.Rotation.Gfs.{stamp, entry_of, is_expired, delete_loop, determine_backups_to_delete}
use datasaver.Rotation.Gfs.Rule.{ids, retained, keep_loop-eq-ids, length-retained-le, take-retained}

-- The condition of the second loop, for a set of kept IDs.
abbrev pub is_deleted : Policy → Time → List Str → BackupMetadata → Bool
is_deleted p now kept b = not (has_str b.id kept) || is_expired p now b

delete_loop-eq-select :
    (p : Policy) (now : Time) (kept : List Str) (bs : List BackupMetadata)
    → delete_loop p now kept (map entry_of bs) ≡ select (is_deleted p now kept) bs
unfolding delete_loop entry_of
delete_loop-eq-select p now kept [] = refl
delete_loop-eq-select p now kept (b ∷ bs) = ground (arith, delete_loop-eq-select p now kept bs)

-- Backups whose IDs are in a list of n IDs number at most n, if no two share an ID.
count-has_str-le :
    (ks : List Str) (bs : List BackupMetadata)
    → ((k : Str) → count (λ b. str_eq k b.id) bs ≤ 1)
    → count (λ b. has_str b.id ks) bs ≤ length ks
unfolding has_str
count-has_str-le [] bs h = omega (arith, none_counted bs)
  where
    none_counted : (xs : List BackupMetadata) → count (λ b. has_str b.id []) xs ≡ 0
    none_counted [] = refl
    none_counted (x ∷ xs) = omega (arith, none_counted xs)
count-has_str-le (k ∷ ks) bs h = omega (
  arith,
  count-or-le (λ b. str_eq k b.id) (λ b. has_str b.id ks) bs,
  h k,
  count-has_str-le ks bs h,
)

length-ids : (bs : List BackupMetadata) → length (ids bs) ≡ length bs
length-ids [] = refl
length-ids (b ∷ bs) = ap suc (length-ids bs)

eq-nil_of_length : {A : Type 0} (xs : List A) → length xs ≡ 0 → xs ≡ []
eq-nil_of_length [] h = refl
eq-nil_of_length (x ∷ xs) h = absurd (omega arith)

module _ (s : Sorter stamp) (p : Policy) where
  abbrev pub kept_ids : List BackupMetadata → List Str
  kept_ids bs = ids (retained p [] (s.sort bs))

  -- The deleted backups are, newest first, those that are past the maximum age, and those whose ID
  -- none of these has: the newest daily limit of backups, the newest weekly limit of backups of a
  -- Sunday, and the newest monthly limit of backups of the first day of a month.
  pub determine-eq-select :
      (now : Time) (bs : List BackupMetadata)
      → determine_backups_to_delete s p now bs ≡ select (is_deleted p now (kept_ids bs)) (s.sort bs)
  unfolding determine_backups_to_delete
  determine-eq-select now [] = rw (eq-nil_of_length (s.sort []) (length-perm (s.sort-perm [])))
  determine-eq-select now (b ∷ bs) =
      rw keep_loop-eq-ids (delete_loop-eq-select p now _ (s.sort (b ∷ bs)))

module _ (s : Sorter stamp) (p : Policy) (now : Time) (bs : List BackupMetadata) where
  -- Of any kind of backup, no more are deleted than there are.
  pub count-determine-le :
      (q : BackupMetadata → Bool) → count q (determine_backups_to_delete s p now bs) ≤ count q bs
  count-determine-le q = rw (determine-eq-select s p now bs) (
      omega (
        arith,
        count-select-le q (is_deleted p now (kept_ids s p bs)) (s.sort bs),
        count-perm q (s.sort-perm bs),
      ))

  -- Every backup that is past the maximum age is deleted, as often as it is listed.
  pub count-expired-determine :
      count (is_expired p now) (determine_backups_to_delete s p now bs)
      ≡ count (is_expired p now) bs
  count-expired-determine = rw (determine-eq-select s p now bs) (
      count-select_of_imp (is_expired p now) (is_deleted p now (kept_ids s p bs)) (s.sort bs)
        (λ b e. ground (arith, e))
      ∙ count-perm (is_expired p now) (s.sort-perm bs))

  -- If no ID stands twice, at most as many backups survive as the three limits allow together.
  pub length-le-determine :
      ((k : Str) → count (λ b. str_eq k b.id) bs ≤ 1)
      → length bs
        ≤ length (determine_backups_to_delete s p now bs)
          + pos_part p.keep_daily
          + pos_part p.keep_weekly
          + pos_part p.keep_monthly
  length-le-determine distinct =
      let sorted = s.sort bs in
      let q = is_deleted p now (kept_ids s p bs) in
      rw (determine-eq-select s p now bs) (
        omega (
          arith,
          length-perm (s.sort-perm bs),
          length-select q sorted,
          count-add-count-not q sorted,
          count_mono (λ b. not (q b)) (λ b. has_str b.id (kept_ids s p bs)) sorted
              (λ b e. ground arith),
          count-has_str-le (kept_ids s p bs) sorted
              (λ k. omega (arith, distinct k, count-perm (λ b. str_eq k b.id) (s.sort-perm bs))),
          length-ids (retained p [] sorted),
          length-retained-le p [] sorted,
        ))

-- An ID that is kept is the ID of no deleted backup, if none is past the maximum age.
kept_id-undeleted :
    (p : Policy) (now : Time) (kept : List Str) (k : Str) (xs : List BackupMetadata)
    → All (λ b. is_expired p now b ≡ false) xs
    → has_str k kept ≡ true
    → has_str k (ids (select (is_deleted p now kept) xs)) ≡ false
unfolding has_str
kept_id-undeleted p now kept k [] fresh h = refl
kept_id-undeleted p now kept k (x ∷ xs) (f, fresh) h = elim (Bool-cases (str_eq x.id k)) [
  | inl same ↦
      let e : x.id ≡ k = (str_eq_iff x.id k).0 same in
      let kept_x : has_str x.id kept ≡ true = rw e h in
      rw (kept_x, f) (kept_id-undeleted p now kept k xs fresh h)
  | inr other ↦ ground (arith, other, f, kept_id-undeleted p now kept k xs fresh h)
]

-- If no backup is past the maximum age, no ID of the newest backups, as many as the daily limit
-- allows, is the ID of a deleted backup.
pub newest-undeleted :
    (s : Sorter stamp) (p : Policy) (now : Time) (bs : List BackupMetadata)
    → count (is_expired p now) bs ≡ 0
    → All
        (λ b. has_str b.id (ids (determine_backups_to_delete s p now bs)) ≡ false)
        (take (pos_part p.keep_daily) (s.sort bs))
newest-undeleted s p now bs h = rw (determine-eq-select s p now bs) (
    All-map _ _
      (λ b e.
        kept_id-undeleted p now (kept_ids s p bs) b.id (s.sort bs)
          (count-eq-zero→All (is_expired p now) (s.sort bs)
            (count-perm (is_expired p now) (s.sort-perm bs) ∙ h))
          e)
      (take (pos_part p.keep_daily) (s.sort bs))
      (take-retained p [] (s.sort bs) (pos_part p.keep_daily) (omega arith)))
