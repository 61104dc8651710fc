-- ===== src/Tests/Engine.antt =====
-- Examples of the theorems on the listing and the cleanup of backups.
use datasaver.Base.{
  bytes, [], ◌∷◌, none, some, ok, ◌≡◌, refl, length, if◌then◌else◌, has_str, str_eq, has_prefix,
  has_suffix, trim_prefix,
}
use datasaver.Base.Int.{wrap, ◌*ℤ◌}
use datasaver.Base.Sorting.Insertion.{insertion, insertion_sort}
use datasaver.Clock.{weekday, since}
use datasaver.Clock.Civil.{date_of}
use datasaver.Rotation.Policy.{classify_backup, is_sunday, is_first_of_month}
use datasaver.Rotation.Gfs.{stamp, determine_backups_to_delete}
use datasaver.Storage.Local.{modified_at, list, read}
use datasaver.Storage.Disk.{lookup}
use datasaver.Storage.Local.Laws.{IsSound, content_at}
use datasaver.Engine.{list_backups, get_backup, cleanup}
use datasaver.Engine.Cleaning.{files_of, cleanup_view, get_backup-cleanup}
use datasaver.Tests.Data.{
  codec, stored, slashes, base, local, all_names, local-IsMap, disk, disk-IsSound, day_time,
  two_daily,
}

listed : list_backups local codec disk ≡ ok (stored ∷ [])
unfolding list_backups list has_prefix insertion_sort str_eq has_suffix read trim_prefix
listed = refl

-- 40 days later the backup has expired.
deletes :
    determine_backups_to_delete (insertion stamp) two_daily (day_time 48) (stored ∷ [])
    ≡ stored ∷ []
unfolding determine_backups_to_delete insertion_sort has_str classify_backup is_sunday weekday
    is_first_of_month date_of wrap ◌*ℤ◌ since
deletes = refl

cleanup_view_example :
    ((cleanup local codec (insertion stamp) two_daily (day_time 48) disk).0
      ≡ ok (
          length
            (determine_backups_to_delete (insertion stamp) two_daily (day_time 48) (stored ∷ []))))
    × (content_at slashes
          (insertion modified_at)
          base
          (cleanup local codec (insertion stamp) two_daily (day_time 48) disk).1
          (bytes "a.dump")
        ≡ (if has_str (bytes "a.dump") (
              files_of (
                determine_backups_to_delete
                  (insertion stamp)
                  two_daily
                  (day_time 48)
                  (stored ∷ [])))
            then none
            else some (bytes "ok")))
unfolding lookup str_eq
cleanup_view_example =
    cleanup_view local codec IsSound all_names (content_at slashes (insertion modified_at) base)
      local-IsMap (insertion stamp) two_daily (day_time 48) disk disk-IsSound (stored ∷ []) listed
      (rw deletes ((refl, tt), tt)) (bytes "a.dump") refl

get_backup-cleanup_example :
    get_backup local codec
      (bytes "a")
      (cleanup local codec (insertion stamp) two_daily (day_time 48) disk).1
    ≡ get_backup local codec (bytes "a") disk
get_backup-cleanup_example =
    get_backup-cleanup local codec IsSound all_names
      (content_at slashes (insertion modified_at) base) local-IsMap (insertion stamp) two_daily
      (day_time 48) disk (stored ∷ []) disk-IsSound listed
      (rw deletes (((refl, tt), (unfold has_suffix in (refl, tt))), tt)) (bytes "a") refl
