-- ===== src/Tests/McpTools.antt =====
-- Examples of the theorems on the tools of the MCP server.
use mathlib.Core.List.{Memᴰ, Perm}
use datasaver.Base.{
  min, bytes, List, [], ◌∷◌, ◌++◌, map, ok, ◌≡◌, ◌↔◌, refl, length, str_eq, has_prefix, has_suffix,
  trim_prefix, has_str,
}
use datasaver.Base.Int.{◌≤ℤ◌, pos}
use datasaver.Base.Sorting.Insertion.{insertion, insertion_sort}
use datasaver.Clock.{since}
use datasaver.Clock.Format.{rfc3339}
use datasaver.Config.{alert_duration}
use datasaver.Driver.{new_driver}
use datasaver.Metadata.{BackupMetadata}
use datasaver.Notify.{milliseconds}
use datasaver.Rotation.Gfs.{stamp}
use datasaver.Storage.Local.{modified_at, list, read, write}
use datasaver.Storage.Local.Laws.{IsSound, content_at}
use datasaver.Engine.{list_backups}
use datasaver.Engine.Run.{run, run_metadata, started, driver_config, prepare}
use datasaver.Mcp.Outputs.{BackupNowOutput, BackupStatusOutput}
use datasaver.Mcp.Tools.{
  new_engine, item_of, effective_limit, details_of, backup_now, list_backups_tool, get_backup_tool,
  backup_status,
}
use datasaver.Mcp.Tools.Listing.{IsCut, list_backups_newest}
use datasaver.Mcp.Tools.Requests.{backup_status-new_engine, get_backup-backup_now}
use datasaver.Tests.Data.{
  codec, stored, slashes, base, local, all_names, local-IsMap, disk, disk-IsSound, tools,
  named_config, day_time,
}
use datasaver.Tests.Run.{world, engine, hook, prepared, made, run_codec}

listed_one : list_backups local codec disk ≡ ok (stored ∷ [])
unfolding list_backups list has_prefix insertion_sort str_eq has_suffix read trim_prefix
listed_one = refl

list_backups_newest_example :
    (shown : List BackupMetadata) × (others : List BackupMetadata) × (list_backups_tool local codec
        (insertion stamp)
        (pos 0)
        engine
      ≡ ok (record { count = min (effective_limit (pos 0)) 1; backups = map item_of shown }))
    × (length shown ≡ min (effective_limit (pos 0)) 1)
    × Perm (shown ++ others) (stored ∷ [])
    × IsCut shown others ((insertion stamp).sort (stored ∷ []))
list_backups_newest_example =
    list_backups_newest local codec (insertion stamp) (pos 0) engine (stored ∷ []) listed_one

backup_status-new_engine_example :
    (out : BackupStatusOutput) × (backup_status local codec named_config
        (day_time 9)
        (new_engine disk)
      ≡ ok out)
    × (out.total_backups ≡ 1)
    × ((out.status ≡ bytes "healthy") ↔ (
        (m : BackupMetadata) × Memᴰ m (stored ∷ [])
        × (since (day_time 9) m.timestamp ≤ℤ alert_duration named_config)))
    × (out.last_run ≡ [])
    × (out.last_error ≡ [])
backup_status-new_engine_example =
    backup_status-new_engine local codec named_config (day_time 9) disk (stored ∷ []) listed_one

abbrev made_output : BackupNowOutput
made_output = record {
  backup_id = (started named_config world).id;
  timestamp = rfc3339 (day_time 12);
  size_bytes = pos 4;
  compressed_size = pos 4;
  duration_ms = pos 0;
  checksum = bytes "sum";
}

answered :
    (backup_now local run_codec tools hook named_config world (new_engine disk)).0 ≡ ok made_output
unfolding backup_now run prepare new_driver has_str driver_config write new_engine milliseconds
answered = refl

get_backup-backup_now_example :
    get_backup_tool local run_codec made_output.backup_id (
      new_engine
        (backup_now local run_codec tools hook named_config world (new_engine disk)).1.storage)
    ≡ ok (details_of (run_metadata named_config world prepared))
get_backup-backup_now_example =
    get_backup-backup_now local run_codec tools hook named_config world disk prepared made IsSound
      all_names (content_at slashes (insertion modified_at) base) local-IsMap disk-IsSound
      (run_metadata named_config world prepared).id refl refl refl made_output refl answered
