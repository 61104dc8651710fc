-- ===== src/Rotation/Gfs/Newest.antt =====
-- The cleanup algorithm that prd.md words, against the loop of internal/rotation/gfs.go: of each
-- type, sorted by date, the first N stay, and the others go unless another type protects them.
use datasaver.Base.{
  ℕ, zero, suc, ◌+◌, ◌-◌, Bool, ◌&&◌, ◌||◌, str_eq, Str, List, [], ◌∷◌, ◌++◌, ltb, take, select,
  length, count, has_str, has_str-append, ◌≡◌, refl, arith, ◌∙◌, sym, Bool-cases, inl, inr,
}
use datasaver.Base.Int.{ℤ, pos, negsuc, ltb_ℤ, pos_part}
use datasaver.Metadata.{BackupMetadata}
use datasaver.Rotation.Policy.{Policy}
use datasaver.Base.Sorting.{Sorter}
use datasaver.Clock.{Time}
use datasaver.Rotation.Gfs.{stamp, determine_backups_to_delete}
use datasaver.Rotation.Gfs.Deletion.{is_deleted, kept_ids, determine-eq-select}
use datasaver.Rotation.Gfs.Rule.{sunday, first_of_month, is_retained, retained, ids, left}

-- The IDs that the three types protect, of backups that are sorted by date.
abbrev pub protected_ids : Policy → List BackupMetadata → List Str
protected_ids p bs =
    ids (take (pos_part p.keep_daily) bs)
    ++ (ids (take (pos_part p.keep_weekly) (select sunday bs))
        ++ ids (take (pos_part p.keep_monthly) (select first_of_month bs)))

module _ (k : Str) (n c : ℕ) (b : BackupMetadata) (xs : List BackupMetadata) where
  has_str-take-left :
      (m : ℕ)
      → n - c ≡ m
      → has_str k (ids (take m (b ∷ xs)))
        ≡ (ltb c n && str_eq b.id k || has_str k (ids (take (n - suc c) xs)))
  unfolding has_str
  has_str-take-left zero h =
      let none_left : n - suc c ≡ 0 = omega (arith, h) in rw none_left (ground (arith, h))
  has_str-take-left (suc m) h =
      let one_less : n - suc c ≡ m = omega (arith, h) in rw one_less (ground (arith, h))

ltb_ℤ_pos : (c : ℕ) (n : ℤ) → ltb_ℤ (pos c) n ≡ ltb c (pos_part n)
ltb_ℤ_pos c (pos n) = ground arith
ltb_ℤ_pos c (negsuc n) = ground arith

take-nil : (n : ℕ) → take {A = BackupMetadata} n [] ≡ []
take-nil zero = refl
take-nil (suc n) = refl

-- What one class adds for one backup: its ID, if it is of the class and the limit is not reached.
class_step :
    (q : BackupMetadata → Bool) (limit : ℤ) (k : Str) (newer : List BackupMetadata)
    (b : BackupMetadata) (bs : List BackupMetadata)
    → has_str k (ids (take (left limit (count q newer)) (select q (b ∷ bs)))) ≡ (
        q b && ltb_ℤ (pos (count q newer)) limit && str_eq b.id k
        || has_str k (ids (take (left limit (count q (b ∷ newer))) (select q bs))))
class_step q limit k newer b bs = elim (Bool-cases (q b)) [
  | inl of_class ↦
      let one_more : 1 + count q newer ≡ suc (count q newer) = omega arith in
      rw of_class (
        rw one_more (
          has_str-take-left k (pos_part limit) (count q newer) b (select q bs) _ refl
          ∙ rw (sym (ltb_ℤ_pos (count q newer) limit)) refl))
  | inr other ↦
      let as_many : 0 + count q newer ≡ count q newer = omega arith in rw (other, as_many) refl
]

daily_step :
    (limit : ℤ) (k : Str) (newer : List BackupMetadata) (b : BackupMetadata)
    (bs : List BackupMetadata)
    → has_str k (ids (take (left limit (length newer)) (b ∷ bs))) ≡ (
        ltb_ℤ (pos (length newer)) limit && str_eq b.id k
        || has_str k (ids (take (left limit (length (b ∷ newer))) bs)))
daily_step limit k newer b bs =
    has_str-take-left k (pos_part limit) (length newer) b bs _ refl
    ∙ rw (sym (ltb_ℤ_pos (length newer) limit)) refl

retained_step :
    (p : Policy) (k : Str) (newer : List BackupMetadata) (b : BackupMetadata)
    (bs : List BackupMetadata)
    → has_str k (ids (retained p newer (b ∷ bs)))
      ≡ (is_retained p newer b && str_eq b.id k || has_str k (ids (retained p (b ∷ newer) bs)))
unfolding retained has_str
retained_step p k newer b bs = elim (Bool-cases (is_retained p newer b)) [
  | inl kept ↦ rw kept refl
  | inr passed ↦ rw passed refl
]

regroup :
    (d s w f m e x y z : Bool)
    → ((d || s && w || f && m) && e || (x || y || z))
      ≡ ((d && e || x) || (s && w && e || y) || (f && m && e || z))
regroup d s w f m e x y z = ground arith

has_str-retained :
    (p : Policy) (k : Str) (newer bs : List BackupMetadata)
    → has_str k (ids (retained p newer bs)) ≡ (
        has_str k (ids (take (left p.keep_daily (length newer)) bs))
        || has_str k (ids (take (left p.keep_weekly (count sunday newer)) (select sunday bs)))
        || has_str k (
            ids
              (take (left p.keep_monthly (count first_of_month newer)) (select first_of_month bs))))
unfolding retained is_retained has_str
has_str-retained p k newer [] = ground (
  arith,
  take-nil (left p.keep_daily (length newer)),
  take-nil (left p.keep_weekly (count sunday newer)),
  take-nil (left p.keep_monthly (count first_of_month newer)),
)
has_str-retained p k newer (b ∷ bs) =
    let day = ltb_ℤ (pos (length newer)) p.keep_daily in
    let week = ltb_ℤ (pos (count sunday newer)) p.keep_weekly in
    let month = ltb_ℤ (pos (count first_of_month newer)) p.keep_monthly in
    retained_step p k newer b bs
    ∙ rw
        (
          has_str-retained p k (b ∷ newer) bs,
          daily_step p.keep_daily k newer b bs,
          class_step sunday p.keep_weekly k newer b bs,
          class_step first_of_month p.keep_monthly k newer b bs,
        )
        (regroup day (sunday b) week (first_of_month b) month (str_eq b.id k) _ _ _)

-- With nothing newer, the retained IDs are the protected ones.
has_str-retained-nil :
    (p : Policy) (k : Str) (bs : List BackupMetadata)
    → has_str k (ids (retained p [] bs)) ≡ has_str k (protected_ids p bs)
has_str-retained-nil p k bs =
    let all_left : (n : ℕ) → n - 0 ≡ n = λ n. omega arith in
    rw
      (
        has_str-retained p k [] bs,
        all_left (pos_part p.keep_daily),
        all_left (pos_part p.keep_weekly),
        all_left (pos_part p.keep_monthly),
        has_str-append k,
        has_str-append k (ids (take (pos_part p.keep_weekly) (select sunday bs))),
      )
      (ground arith)

select-eq_of_pointwise :
    (q r : BackupMetadata → Bool) (bs : List BackupMetadata)
    → ((b : BackupMetadata) → q b ≡ r b)
    → select q bs ≡ select r bs
select-eq_of_pointwise q r [] h = refl
select-eq_of_pointwise q r (b ∷ bs) h = rw (h b, select-eq_of_pointwise q r bs h) refl

module _ (s : Sorter stamp) (p : Policy) (now : Time) where
  -- The deleted backups are, newest first, those that are past the maximum age, and those whose ID
  -- none of these has: the first of the backups that are listed newest first, as many as
  -- keep_daily allows; of those among them of a Sunday, the first that keep_weekly allows; and of
  -- those of the first day of a month, the first that keep_monthly allows.
  pub determine-eq-unprotected :
      (bs : List BackupMetadata)
      → determine_backups_to_delete s p now bs
        ≡ select (is_deleted p now (protected_ids p (s.sort bs))) (s.sort bs)
  determine-eq-unprotected bs =
      determine-eq-select s p now bs
      ∙ select-eq_of_pointwise (is_deleted p now (kept_ids s p bs))
          (is_deleted p now (protected_ids p (s.sort bs))) (s.sort bs)
          (λ b. rw (has_str-retained-nil p b.id (s.sort bs)) refl)
