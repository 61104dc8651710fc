-- ===== src/Tests/Run/Overlapping.antt =====
-- An example of the theorem on runs that overlap: the run of the next day writes its files between
-- and behind the writes of the first one, and is killed.
use datasaver.Base.{ℕ, Str, bytes, [], ◌∷◌, ◌++◌, ok, ◌≡◌, ◌≢◌, refl, arith, has_str, to_lower}
use datasaver.Base.Sorting.Insertion.{insertion}
use datasaver.Clock.{local_seconds, local_days}
use datasaver.Clock.Civil.{date_of}
use datasaver.Config.{is_sqlite}
use datasaver.Driver.{postgres, new_driver}
use datasaver.Metadata.{generate_backup_id}
use datasaver.Rotation.Gfs.{stamp}
use datasaver.Storage.Calls.{writes, exec}
use datasaver.Validator.{meta_suffix}
use datasaver.Engine.Overlap.{Threads, at_thread, IsForeign, Reach, Step, Keeps, Reach-Keeps}
use datasaver.Engine.Run.{World, Prepared, started, driver_config, prepare, run_metadata}
use datasaver.Restore.{restore, target, parse_connection_info}
use datasaver.Roundtrip.Overlapping.{own_write, restore_overlapped}
use datasaver.Tests.Data.{
  local, all_names, local-IsMap, disk, disk-IsSound, tools, named_config, day_time, two_daily,
}
use datasaver.Tests.Run.{
  world, hook, prepared, made, run_codec, can_restore, dumps, latest, restoring,
}

abbrev next_day : World
next_day = record world { start = day_time 13 }

other_id : generate_backup_id (day_time 13) ≢ generate_backup_id (day_time 12)
unfolding generate_backup_id local_seconds local_days date_of
other_id e = ground (arith, e)

abbrev next_prepared : Prepared
unfolding prepared
next_prepared = record prepared { path = (started named_config next_day).id ++ bytes ".dump" }

next_made : prepare named_config next_day ≡ ok next_prepared
unfolding prepare new_driver has_str driver_config is_sqlite to_lower prepared next_prepared
next_made = refl

abbrev meta_of : World → Str
meta_of w = (started named_config w).id ++ meta_suffix

abbrev next_text : Str
next_text = (run_metadata named_config next_day next_prepared).id

abbrev own_text : Str
own_text = (run_metadata named_config world prepared).id

abbrev before : Threads local
before = record { storage = disk; pending = λ i. [] }

abbrev dumped : Threads local
dumped = own_write local prepared.path prepared.text before

abbrev next_begun : Threads local
next_begun = record dumped {
  pending =
      at_thread 1
        (writes next_prepared.path next_prepared.text ∷ writes (meta_of next_day) next_text ∷ [])
        dumped.pending;
}

abbrev between : Threads local
between = record next_begun {
  storage = exec local (writes next_prepared.path next_prepared.text) next_begun.storage;
  pending = at_thread 1 (writes (meta_of next_day) next_text ∷ []) next_begun.pending;
}

abbrev stored : Threads local
stored = own_write local (meta_of world) own_text between

abbrev killed : Threads local
killed = record stored { pending = at_thread 1 [] stored.pending }

quiet : (i : ℕ) → IsForeign all_names (day_time 12) (before.pending i)
quiet i = record { all_named = tt; skips = λ suffix. tt }

restore_overlapped_example :
    (restore local restoring named_config latest killed.storage).calls
    ≡ record {
      text = bytes "dump";
      options = record (parse_connection_info restoring named_config) {
        database =
            target local restoring named_config latest killed.storage
              (run_metadata named_config world prepared);
      };
    }
      ∷ []
restore_overlapped_example =
    restore_overlapped local run_codec tools hook named_config (insertion stamp) two_daily world
      prepared made local-IsMap (λ v suffix listed. refl) own_text restoring named_config latest
      (postgres (driver_config named_config)) (bytes "16") (bytes "dump") before between killed
      dumps can_restore refl refl disk-IsSound quiet
      (Reach.then_step
        (Reach.then_step Reach.start
          (Step.runs 1 next_day next_prepared next_text other_id next_made refl))
        (Step.calls 1 (writes next_prepared.path next_prepared.text)
          (writes (meta_of next_day) next_text ∷ []) refl))
      (Reach.then_step Reach.start (Step.ends 1))

abbrev writing : Threads local
writing = record before {
  storage = exec local (writes next_prepared.path next_prepared.text) before.storage;
  pending = at_thread 1 (writes (meta_of next_day) next_text ∷ []) (
      at_thread 1
        (writes next_prepared.path next_prepared.text ∷ writes (meta_of next_day) next_text ∷ [])
        before.pending);
}

Reach-Keeps_example :
    Keeps local run_codec tools hook named_config
      (insertion stamp)
      two_daily
      all_names
      (day_time 12)
      local-IsMap
      (λ v suffix listed. refl)
      before
      writing
Reach-Keeps_example =
    Reach-Keeps local run_codec tools hook named_config (insertion stamp) two_daily all_names
      (day_time 12) local-IsMap (λ v suffix listed. refl) disk-IsSound quiet
      (Reach.then_step
        (Reach.then_step Reach.start
          (Step.runs 1 next_day next_prepared next_text other_id next_made refl))
        (Step.calls 1 (writes next_prepared.path next_prepared.text)
          (writes (meta_of next_day) next_text ∷ []) refl))
