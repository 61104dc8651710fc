-- ===== src/Rotation/Gfs/MaxAge.antt =====
-- The maximum age of internal/rotation/gfs.go as a 64-bit duration.
use datasaver.Base.{
  ℕ, ap, ◌^◌, ◌+◌, ◌*◌, ◌≤◌, ◌<◌, ◌≡◌, ◌∙◌, true, false, List, All-map, count, arith, ltb,
}
use datasaver.Base.Counting.{count-eq-zero→All, count-perm, select-All}
use datasaver.Base.Sorting.{Sorter}
use datasaver.Base.Int.{pos, pos-*ℤ-pos, wrap_past, wrap, wrap_of_IsInt64}
use datasaver.Clock.{Time, hour, since}
use datasaver.Metadata.{BackupMetadata}
use datasaver.Rotation.Policy.{Policy}
use datasaver.Rotation.Gfs.{stamp, max_age, is_expired, determine_backups_to_delete}
use datasaver.Rotation.Gfs.Deletion.{determine-eq-select, is_deleted, kept_ids}

-- Nanoseconds of a day.
abbrev pub day : ℕ
day = 86400000000000

-- The first product does not wrap for any number of days below 2^58.
max_age-eq-wrap :
    (p : Policy) (d : ℕ) → p.max_age_days ≡ pos d → d < 2 ^ 58 → max_age p ≡ wrap (pos (d * day))
unfolding max_age
max_age-eq-wrap p d e h =
    rw (e, pos-*ℤ-pos d 24, wrap_of_IsInt64 (pos (d * 24)) (omega arith), pos-*ℤ-pos (d * 24) hour)
      (ap (λ n. wrap (pos n)) (omega arith))

max_age_exact :
    (p : Policy) (d : ℕ) → p.max_age_days ≡ pos d → d ≤ 106751 → max_age p ≡ pos (d * day)
max_age_exact p d e h =
    max_age-eq-wrap p d e (omega arith) ∙ wrap_of_IsInt64 (pos (d * day)) (omega arith)

-- Up to 106751 days a backup is expired exactly when it is older than that many days.
pub is_expired-eq-ltb :
    (p : Policy) (now : Time) (b : BackupMetadata) (d : ℕ)
    → p.max_age_days ≡ pos d
    → 0 < d
    → d ≤ 106751
    → is_expired p now b ≡ ltb (b.timestamp.nanos + d * day) now.nanos
unfolding is_expired since
is_expired-eq-ltb p now b d e h0 h = rw (max_age_exact p d e h, e) (ground arith)

-- A backup that is not of the future is expired under a duration that has wrapped.
expired_of_wrapped :
    (p : Policy) (now : Time) (b : BackupMetadata) (d : ℕ)
    → p.max_age_days ≡ pos d
    → 106752 ≤ d
    → d ≤ 213503
    → ltb now.nanos b.timestamp.nanos ≡ false
    → is_expired p now b ≡ true
unfolding is_expired since
expired_of_wrapped p now b d e h k past =
    rw (max_age-eq-wrap p d e (omega arith), wrap_past (d * day) (omega arith) (omega arith), e)
      (ground arith)

-- From 106752 to 213503 days the product wraps to a negative duration, and every backup that is
-- not of the future is deleted.
pub determine_wrapped :
    (s : Sorter stamp) (p : Policy) (now : Time) (bs : List BackupMetadata) (d : ℕ)
    → p.max_age_days ≡ pos d
    → 106752 ≤ d
    → d ≤ 213503
    → count (λ b. ltb now.nanos b.timestamp.nanos) bs ≡ 0
    → determine_backups_to_delete s p now bs ≡ s.sort bs
determine_wrapped s p now bs d e h k past =
    let future = λ (b : BackupMetadata). ltb now.nanos b.timestamp.nanos in
    rw (determine-eq-select s p now bs) (
      select-All (is_deleted p now (kept_ids s p bs)) (s.sort bs) (
        All-map _ _ (λ b f. ground (arith, expired_of_wrapped p now b d e h k f)) (s.sort bs)
          (count-eq-zero→All future (s.sort bs) (count-perm future (s.sort-perm bs) ∙ past))))
