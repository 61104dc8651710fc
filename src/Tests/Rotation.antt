-- ===== src/Tests/Rotation.antt =====
-- Examples of the theorems on rotation.
use datasaver.Base.{
  ◌+◌, ◌*◌, ◌≤◌, ◌≡◌, refl, false, Str, bytes, [], ◌∷◌, All, count, take, select, arith, ltb,
  str_eq, has_str, List,
}
use datasaver.Metadata.{BackupMetadata}
use datasaver.Base.Int.{pos, wrap, ◌*ℤ◌}
use datasaver.Base.Sorting.Insertion.{insertion, insertion_sort}
use datasaver.Clock.{since, hour, weekday, local_days}
use datasaver.Rotation.Policy.{Policy, is_sunday, is_first_of_month}
use datasaver.Rotation.Gfs.{stamp, is_expired, determine_backups_to_delete}
use datasaver.Rotation.Gfs.Rule.{ids}
use datasaver.Rotation.Gfs.Deletion.{is_deleted, newest-undeleted}
use datasaver.Rotation.Gfs.Newest.{protected_ids, determine-eq-unprotected}
use datasaver.Rotation.Gfs.MaxAge.{day, is_expired-eq-ltb, determine_wrapped}
use datasaver.Tests.Data.{day_time, backup_of, three, two_daily}

-- Two backups of one Sunday and one of the Monday behind it.
abbrev of_sunday : List BackupMetadata
of_sunday =
    backup_of (bytes "a") 13 []
    ∷ record (backup_of (bytes "b") 13 []) {
      timestamp = record (day_time 13) { nanos = 13 * day + 6 * hour };
    }
    ∷ backup_of (bytes "c") 14 []
    ∷ []

abbrev one_weekly : Policy
one_weekly = record two_daily { keep_daily = pos 1; keep_weekly = pos 1 }

determine-eq-unprotected_example :
    determine_backups_to_delete (insertion stamp) one_weekly (day_time 15) of_sunday
    ≡ select
        (is_deleted one_weekly
          (day_time 15)
          (protected_ids one_weekly ((insertion stamp).sort of_sunday)))
        ((insertion stamp).sort of_sunday)
determine-eq-unprotected_example =
    determine-eq-unprotected (insertion stamp) one_weekly (day_time 15) of_sunday

-- The later backup of the Sunday is kept, and the first one of its week is deleted.
sunday_kept :
    protected_ids one_weekly ((insertion stamp).sort of_sunday) ≡ bytes "c" ∷ bytes "b" ∷ []
unfolding insertion_sort is_sunday is_first_of_month weekday local_days
sunday_kept = refl

first_deleted :
    ids (determine_backups_to_delete (insertion stamp) one_weekly (day_time 15) of_sunday)
    ≡ bytes "a" ∷ []
unfolding insertion_sort has_str is_expired wrap ◌*ℤ◌ since is_sunday is_first_of_month weekday
    local_days
first_deleted = rw determine-eq-unprotected_example refl

one_id : (k : Str) → count (λ b. str_eq k b.id) (backup_of (bytes "a") 8 [] ∷ []) ≤ 1
one_id k = ground arith

none_expired : count (is_expired two_daily (day_time 11)) three ≡ 0
unfolding is_expired wrap ◌*ℤ◌ since
none_expired = refl

newest-undeleted_example :
    All
      (λ b.
        has_str b.id
          (ids (determine_backups_to_delete (insertion stamp) two_daily (day_time 11) three))
        ≡ false)
      (take 2 ((insertion stamp).sort three))
newest-undeleted_example =
    newest-undeleted (insertion stamp) two_daily (day_time 11) three none_expired

is_expired-eq-ltb_example :
    is_expired two_daily (day_time 39) (backup_of (bytes "a") 8 [])
    ≡ ltb (8 * day + 30 * day) (39 * day)
is_expired-eq-ltb_example =
    is_expired-eq-ltb two_daily (day_time 39) (backup_of (bytes "a") 8 []) 30 refl (omega arith)
      (omega arith)

abbrev three_centuries : Policy
three_centuries = record two_daily { max_age_days = pos 109500 }

determine_wrapped_example :
    determine_backups_to_delete (insertion stamp) three_centuries (day_time 11) three
    ≡ (insertion stamp).sort three
determine_wrapped_example =
    determine_wrapped (insertion stamp) three_centuries (day_time 11) three 109500 refl
      (omega arith) (omega arith) refl
