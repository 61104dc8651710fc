-- ===== src/Rotation/Gfs.antt =====
-- internal/rotation/gfs.go: which backups the rotation keeps and which it deletes.
pub mod Rule
pub mod Deletion
pub mod Newest
pub mod MaxAge
use datasaver.Base.{
  ℕ, ◌+◌, Bool, true, false, not, ◌&&◌, Str, List, [], ◌∷◌, map, if◌then◌else◌, has_str,
}
use datasaver.Base.Int.{ℤ, pos, ltb_ℤ, ◌*ℤ◌, wrap}
use datasaver.Base.Sorting.{Sorter}
use datasaver.Clock.{Time, hour, since}
use datasaver.Metadata.{BackupMetadata}
use datasaver.Rotation.Policy.{
  Policy, BackupType, daily, weekly, monthly, classify_backup, primary_type, type_name,
  calculate_retention_date,
}

abbrev pub stamp : BackupMetadata → ℕ
stamp b = b.timestamp.nanos

pub record BackupEntry : Type 0 where
  pub metadata : BackupMetadata
  pub types : List BackupType

unfoldable pub entry_of : BackupMetadata → BackupEntry
entry_of b = record { metadata = b; types = classify_backup b.timestamp }

pub record Counts : Type 0 where
  pub daily_count : ℕ
  pub weekly_count : ℕ
  pub monthly_count : ℕ

abbrev pub no_counts : Counts
no_counts = record { daily_count = 0; weekly_count = 0; monthly_count = 0 }

-- One round of the loop over the types of an entry: the counts and shouldKeep.
unfoldable pub count_type : Policy → BackupType → Counts × Bool → Counts × Bool
count_type p monthly (c, keep) =
    if ltb_ℤ (pos c.monthly_count) p.keep_monthly
    then (record c { monthly_count = c.monthly_count + 1 }, true)
    else (c, keep)
count_type p weekly (c, keep) =
    if ltb_ℤ (pos c.weekly_count) p.keep_weekly
    then (record c { weekly_count = c.weekly_count + 1 }, true)
    else (c, keep)
count_type p daily (c, keep) =
    if ltb_ℤ (pos c.daily_count) p.keep_daily
    then (record c { daily_count = c.daily_count + 1 }, true)
    else (c, keep)

unfoldable pub count_types : Policy → List BackupType → Counts × Bool → Counts × Bool
unfolding count_type
count_types p [] s = s
count_types p (t ∷ ts) s = count_types p ts (count_type p t s)

-- The loop over the entries. The map `keep` is the list of the IDs that it holds.
unfoldable pub keep_loop : Policy → Counts → List BackupEntry → List Str
unfolding count_types
keep_loop p c [] = []
keep_loop p c (e ∷ es) =
    let (c', keep) = count_types p e.types (c, false) in
    let rest = keep_loop p c' es in if keep then e.metadata.id ∷ rest else rest

-- time.Duration(MaxAgeDays) * 24 * time.Hour, each product in 64 bits.
unfoldable pub max_age : Policy → ℤ
max_age p = wrap (wrap (p.max_age_days *ℤ pos 24) *ℤ pos hour)

unfoldable pub is_expired : Policy → Time → BackupMetadata → Bool
unfolding max_age
is_expired p now b = ltb_ℤ (pos 0) p.max_age_days && ltb_ℤ (max_age p) (since now b.timestamp)

-- The second loop over the entries.
unfoldable pub delete_loop : Policy → Time → List Str → List BackupEntry → List BackupMetadata
unfolding is_expired
delete_loop p now keep [] = []
delete_loop p now keep (e ∷ es) =
    let rest = delete_loop p now keep es in
    if not (has_str e.metadata.id keep)
    then e.metadata ∷ rest
    else if is_expired p now e.metadata
    then e.metadata ∷ rest
    else rest

module _ (s : Sorter stamp) where
  unfoldable pub determine_backups_to_delete :
      Policy → Time → List BackupMetadata → List BackupMetadata
  unfolding keep_loop delete_loop entry_of
  determine_backups_to_delete p now [] = []
  determine_backups_to_delete p now (b ∷ bs) =
      let entries = map entry_of (s.sort (b ∷ bs)) in
      delete_loop p now (keep_loop p no_counts entries) entries

unfoldable pub get_retention_info : Policy → Time → Time × Str
get_retention_info p t = let c = primary_type t in (calculate_retention_date p t c, type_name c)
