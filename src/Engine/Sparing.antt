-- ===== src/Engine/Sparing.antt =====
-- Which backups a cleanup of internal/backup/engine.go spares.
use mathlib.Core.List.{Memᴰ}
use datasaver.Base.{
  Bool, false, not, ◌&&◌, Str, List, [], ◌∷◌, ◌++◌, Option, str_eq, has_str, has_str-append, ◌≡◌,
  refl, subst, arith, All, All-mem, count, take,
}
use datasaver.Base.Int.{pos_part}
use datasaver.Base.Sorting.{Sorter}
use datasaver.Clock.{Time}
use datasaver.Config.{Config}
use datasaver.Metadata.{BackupMetadata, generate_backup_id}
use datasaver.Notify.{Notifier}
use datasaver.Rotation.Policy.{Policy}
use datasaver.Rotation.Gfs.{stamp, is_expired, determine_backups_to_delete}
use datasaver.Rotation.Gfs.Deletion.{newest-undeleted, count-determine-le}
use datasaver.Rotation.Gfs.Rule.{ids}
use datasaver.Storage.{Backend}
use datasaver.Validator.{Tools}
use datasaver.Engine.{Codec}
use datasaver.Engine.Cleaning.{files_of, AllNames}
use datasaver.Engine.History.{Spares}

-- The backup of another ID lists the file.
abbrev pub is_foreign : Str → Str → BackupMetadata → Bool
is_foreign id file m = has_str file m.files && not (str_eq m.id id)

-- A file that no backup with another ID lists is not among those of backups with other IDs.
has_str-files_of :
    (id file : Str) (ms : List BackupMetadata)
    → count (is_foreign id file) ms ≡ 0
    → has_str id (ids ms) ≡ false
    → has_str file (files_of ms) ≡ false
unfolding has_str
has_str-files_of id file [] own absent = refl
has_str-files_of id file (m ∷ ms) own absent =
    let rest = has_str-files_of id file ms in
    ground (arith, own, absent, rest, has_str-append file m.files (files_of ms))

module _ (b : Backend) (k : Codec) (t : Tools) (notifier : Option Notifier) (cfg : Config)
    (sorter : Sorter stamp) (p : Policy) (names : Str → Bool) (u now : Time) (s : b.State)
    (ms : List BackupMetadata) where
  -- If no backup is past the maximum age and no backup with another ID lists a file of this one, a
  -- cleanup spares the files of a backup among the newest, as many as the daily limit allows.
  pub newest-Spares :
      (m : BackupMetadata)
      → m.id ≡ generate_backup_id u
      → Memᴰ m (take (pos_part p.keep_daily) (sorter.sort ms))
      → count (is_expired p now) ms ≡ 0
      → ((suffix : Str)
          → count (is_foreign (generate_backup_id u) (generate_backup_id u ++ suffix)) ms ≡ 0)
      → All (λ d. AllNames names d.files) (determine_backups_to_delete sorter p now ms)
      → Spares b k t notifier cfg sorter p names u now s ms
  newest-Spares m id newest fresh own told_apart = record {
    all_names = told_apart;
    spared = λ suffix.
        let file = generate_backup_id u ++ suffix in
        let deleted = determine_backups_to_delete sorter p now ms in
        let none_owned : count (is_foreign (generate_backup_id u) file) deleted ≡ 0 = omega (
          arith,
          own suffix,
          count-determine-le sorter p now ms (is_foreign (generate_backup_id u) file),
        ) in
        let kept =
          All-mem (λ d. has_str d.id (ids deleted) ≡ false) m _
            (newest-undeleted sorter p now ms fresh) newest in
        has_str-files_of (generate_backup_id u) file deleted none_owned
          (subst (λ i. has_str i (ids deleted) ≡ false) id kept);
  }
