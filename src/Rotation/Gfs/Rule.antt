-- ===== src/Rotation/Gfs/Rule.antt =====
-- The rule that the loop of internal/rotation/gfs.go keeps backups by, without its counters: the
-- newest N of all backups, of those of a Sunday, and of those of the first day of a month.
-- README.md and prd.md classify otherwise: weekly and monthly are the first backup of each week and
-- month.
use datasaver.Base.{
  ℕ, zero, suc, ◌+◌, ◌-◌, take, true, has_str, str_eq_refl, All, All-map, ◌≤◌, refl, ◌≡◌, min, Bool,
  false, ◌&&◌, ◌||◌, Str, List, [], ◌∷◌, map, if◌then◌else◌, length, count, arith,
}
use datasaver.Base.Int.{ℤ, pos, ltb_ℤ, pos_part}
use datasaver.Metadata.{BackupMetadata}
use datasaver.Rotation.Policy.{Policy, is_sunday, is_first_of_month, classify_backup}
use datasaver.Rotation.Gfs.{no_counts, entry_of, keep_loop, Counts, count_types}

abbrev pub sunday : BackupMetadata → Bool
sunday b = is_sunday b.timestamp

abbrev pub first_of_month : BackupMetadata → Bool
first_of_month b = is_first_of_month b.timestamp

-- A backup is retained if fewer than the allowed number of its class are newer. Every backup is
-- a daily one.
unfoldable pub is_retained : Policy → List BackupMetadata → BackupMetadata → Bool
is_retained p newer b =
    ltb_ℤ (pos (length newer)) p.keep_daily
    || sunday b && ltb_ℤ (pos (count sunday newer)) p.keep_weekly
    || first_of_month b && ltb_ℤ (pos (count first_of_month newer)) p.keep_monthly

-- The retained ones of a list, newest first, behind the backups that are newer.
unfoldable pub retained : Policy → List BackupMetadata → List BackupMetadata → List BackupMetadata
unfolding is_retained
retained p newer [] = []
retained p newer (b ∷ bs) =
    let rest = retained p (b ∷ newer) bs in if is_retained p newer b then b ∷ rest else rest

-- Each counter is the number of newer backups of its class, up to the limit.
record Agrees (p : Policy) (newer : List BackupMetadata) (c : Counts) : Type 0 where
  days : c.daily_count ≡ min (length newer) (pos_part p.keep_daily)
  weeks : c.weekly_count ≡ min (count sunday newer) (pos_part p.keep_weekly)
  months : c.monthly_count ≡ min (count first_of_month newer) (pos_part p.keep_monthly)

abbrev pub ids : List BackupMetadata → List Str
ids = map (λ b. b.id)

module _ (p : Policy) (newer : List BackupMetadata) (b : BackupMetadata) (c : Counts)
    (a : Agrees p newer c) where
  step-retained : (count_types p (classify_backup b.timestamp) (c, false)).1 ≡ is_retained p newer b
  unfolding count_types classify_backup is_retained
  step-retained = ground (arith, a)

  step-Agrees : Agrees p (b ∷ newer) (count_types p (classify_backup b.timestamp) (c, false)).0
  unfolding count_types classify_backup
  step-Agrees = ground (arith, a)

keep_loop-eq_of_Agrees :
    (p : Policy) (newer : List BackupMetadata) (c : Counts) (bs : List BackupMetadata)
    → Agrees p newer c
    → keep_loop p c (map entry_of bs) ≡ ids (retained p newer bs)
unfolding keep_loop entry_of retained
keep_loop-eq_of_Agrees p newer c [] a = refl
keep_loop-eq_of_Agrees p newer c (b ∷ bs) a =
    let s = count_types p (classify_backup b.timestamp) (c, false) in
    rw
      (
        step-retained p newer b c a,
        keep_loop-eq_of_Agrees p (b ∷ newer) s.0 bs (step-Agrees p newer b c a),
      )
      (ground arith)

pub keep_loop-eq-ids :
    (p : Policy) (bs : List BackupMetadata)
    → keep_loop p no_counts (map entry_of bs) ≡ ids (retained p [] bs)
keep_loop-eq-ids p bs = keep_loop-eq_of_Agrees p [] no_counts bs (omega arith)

-- How many more of a class the rule lets through behind `n` newer ones.
abbrev pub left : ℤ → ℕ → ℕ
left k n = pos_part k - n

-- The rule retains at most as many backups as the limits leave room for.
pub length-retained-le :
    (p : Policy) (newer bs : List BackupMetadata)
    → length (retained p newer bs)
      ≤ left p.keep_daily (length newer)
        + left p.keep_weekly (count sunday newer)
        + left p.keep_monthly (count first_of_month newer)
unfolding retained
length-retained-le p newer [] = omega arith
length-retained-le p newer (b ∷ bs) = ground (arith, length-retained-le p (b ∷ newer) bs)

-- The first of the newer backups that the daily limit allows are retained.
pub take-retained :
    (p : Policy) (newer bs : List BackupMetadata) (n : ℕ)
    → n + length newer ≤ pos_part p.keep_daily
    → All (λ b. has_str b.id (ids (retained p newer bs)) ≡ true) (take n bs)
unfolding retained has_str
take-retained p newer bs zero h = tt
take-retained p newer [] (suc n) h = tt
take-retained p newer (b ∷ bs) (suc n) h = (
  ground (arith, str_eq_refl b.id),
  All-map _ _ (λ x e. ground (arith, e)) (take n bs)
      (take-retained p (b ∷ newer) bs n (omega arith)),
)
