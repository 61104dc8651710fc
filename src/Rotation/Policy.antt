-- ===== src/Rotation/Policy.antt =====
-- internal/rotation/policy.go: the retention policy and the classes of a backup.
pub mod Laws
use datasaver.Base.{Bool, Str, bytes, List, [], ◌∷◌, ◌++◌, ◌&&◌, if◌then◌else◌, ◌==◌}
use datasaver.Base.Int.{ℤ, pos, ltb_ℤ, ◌*ℤ◌, wrap}
use datasaver.Clock.{Time, local_days, weekday, add_days}
use datasaver.Clock.Civil.{date_of}

pub record Policy : Type 0 where
  pub keep_daily : ℤ
  pub keep_weekly : ℤ
  pub keep_monthly : ℤ
  pub max_age_days : ℤ

unfoldable pub new_policy : ℤ → ℤ → ℤ → ℤ → Policy
new_policy daily weekly monthly max_age_days = record {
  keep_daily = daily;
  keep_weekly = weekly;
  keep_monthly = monthly;
  max_age_days = max_age_days;
}

pub data BackupType : Type 0 where
  daily weekly monthly : BackupType

-- The string constant of a type.
unfoldable pub type_name : BackupType → Str
type_name daily = bytes "daily"
type_name weekly = bytes "weekly"
type_name monthly = bytes "monthly"

unfoldable pub is_sunday : Time → Bool
is_sunday t = weekday t == 0

unfoldable pub is_first_of_month : Time → Bool
is_first_of_month t = (date_of (local_days t)).day == 1

unfoldable pub classify_backup : Time → List BackupType
classify_backup t =
    (daily ∷ [])
    ++ (if is_sunday t then weekly ∷ [] else [])
    ++ (if is_first_of_month t then monthly ∷ [] else [])

unfoldable pub primary_type : Time → BackupType
primary_type t = if is_first_of_month t then monthly else if is_sunday t then weekly else daily

-- The days of a class before the cap. An int product wraps around.
unfoldable pub class_days : Policy → BackupType → ℤ
class_days p monthly = wrap (p.keep_monthly *ℤ pos 30)
class_days p weekly = wrap (p.keep_weekly *ℤ pos 7)
class_days p daily = p.keep_daily

unfoldable pub retention_days : Policy → BackupType → ℤ
unfolding class_days
retention_days p c =
    let days = class_days p c in
    if ltb_ℤ (pos 0) p.max_age_days && ltb_ℤ p.max_age_days days then p.max_age_days else days

unfoldable pub calculate_retention_date : Policy → Time → BackupType → Time
unfolding retention_days
calculate_retention_date p t c = add_days t (retention_days p c)
