-- ===== src/Tests/History.antt =====
-- Examples of the theorems on runs and cleanups that follow each other.
use datasaver.Base.{bytes, [], ◌∷◌, ◌≡◌, ◌≢◌, refl, arith}
use datasaver.Base.Sorting.Insertion.{insertion}
use datasaver.Clock.{local_seconds, local_days}
use datasaver.Clock.Civil.{date_of}
use datasaver.Driver.{postgres}
use datasaver.Metadata.{generate_backup_id}
use datasaver.Rotation.Gfs.{stamp}
use datasaver.Storage.Local.{modified_at}
use datasaver.Storage.Local.Laws.{IsSound, content_at}
use datasaver.Engine.History.{Reach, Step}
use datasaver.Engine.Run.{World, driver_config, run, run_metadata}
use datasaver.Restore.{restore, target, parse_connection_info}
use datasaver.Roundtrip.Later.{restore-Reach}
use datasaver.Tests.Data.{
  slashes, base, local, all_names, local-IsMap, disk-IsSound, tools, named_config, day_time,
  two_daily,
}
use datasaver.Tests.Run.{
  world, engine, hook, prepared, made, run_codec, stores, can_restore, dumps, latest, restoring,
}

abbrev next_day : World
next_day = record world { start = day_time 13 }

other_id : generate_backup_id (day_time 13) ≢ generate_backup_id (day_time 12)
unfolding generate_backup_id local_seconds local_days date_of
other_id e = ground (arith, e)

-- The run of the next day.
later :
    Reach local run_codec tools hook named_config
      (insertion stamp)
      two_daily
      all_names
      (day_time 12)
      (run local run_codec tools hook named_config world engine).2
      (run local run_codec tools hook named_config next_day
        (run local run_codec tools hook named_config world engine).2).2
later =
    Reach.then_step Reach.start
      (Step.runs next_day (run local run_codec tools hook named_config world engine).2 other_id)

restore-Reach_example :
    (restore local restoring named_config latest
      (run local run_codec tools hook named_config next_day
        (run local run_codec tools hook named_config world engine).2).2.storage).calls
    ≡ record {
      text = bytes "dump";
      options = record (parse_connection_info restoring named_config) {
        database =
            target local restoring named_config latest
              (run local run_codec tools hook named_config next_day
                (run local run_codec tools hook named_config world engine).2).2.storage
              (run_metadata named_config world prepared);
      };
    }
      ∷ []
restore-Reach_example =
    restore-Reach local run_codec tools hook named_config (insertion stamp) two_daily world engine
      prepared made stores IsSound all_names (content_at slashes (insertion modified_at) base)
      local-IsMap (λ v suffix listed. refl) disk-IsSound
      (run_metadata named_config world prepared).id refl restoring named_config latest
      (postgres (driver_config named_config)) (bytes "16") (bytes "dump")
      (run local run_codec tools hook named_config next_day
        (run local run_codec tools hook named_config world engine).2).2
      dumps can_restore refl refl later
