-- ===== src/Tests/Run.antt =====
-- Examples of the theorems on a run of the engine, and on a restore of what it stored.
mod Daily
mod Interleaved
mod Serial
mod Zipped
mod Overlapping
mod Verified
use datasaver.Base.{
  false, Str, bytes, [], ◌∷◌, ◌++◌, Option, none, some, ok, err, ◌≡◌, refl, has_str, to_lower,
}
use datasaver.Base.Int.{pos}
use datasaver.Base.Sorting.Insertion.{insertion}
use datasaver.Clock.{zero_time}
use datasaver.Config.{is_sqlite}
use datasaver.Driver.{postgres, new_driver}
use datasaver.Notify.{Notifier, notify_failure, notify_success}
use datasaver.Storage.Local.{modified_at, write}
use datasaver.Storage.Local.Laws.{IsSound, content_at}
use datasaver.Engine.{Codec, get_backup}
use datasaver.Engine.Run.{
  Engine, World, Prepared, started, driver_config, prepare, run_metadata, run,
}
use datasaver.Engine.Outcome.{run_failed, run_succeeded}
use datasaver.Engine.Stored.{run_stored}
use datasaver.Base.{ap, arith, true}
use datasaver.Engine.Run.{make_dump}
use datasaver.Restore.{RestoreOptions, World as RestoreWorld}
use datasaver.Roundtrip.{Restores}
use datasaver.Tests.Data.{
  codec, slashes, base, local, all_names, local-IsMap, disk, disk-IsSound, tools, named_config,
  day_time,
}

abbrev pub world : World
world = record {
  start = day_time 12;
  created = day_time 12;
  notified = day_time 12;
  duration = pos 9;
  connect = λ d. ok tt;
  version = λ d. ok (bytes "16");
  mkdir_temp = ok tt;
  create_dump = ok tt;
  dump = λ d. ok (bytes "dump");
  stat_dump = ok tt;
  compress = λ text. ok text;
  checksum = λ text. ok (bytes "sum");
  open_final = ok tt;
}

abbrev pub engine : Engine local
engine = record { storage = disk; last_run = zero_time; last_error = none; posted = [] }

abbrev pub hook : Option Notifier
hook = some (record { webhook_url = bytes "http://hook" })

abbrev pub broken : World
broken = record world { connect = λ d. err (bytes "refused") }

pub fails :
    (run local codec tools hook named_config broken engine).1
    ≡ some (bytes "failed to connect to database: refused")
unfolding run prepare new_driver has_str driver_config
fails = refl

pub succeeds : (run local codec tools hook named_config world engine).1 ≡ none
unfolding run prepare new_driver has_str driver_config write
succeeds = refl

run_failed_example :
    let after = (run local codec tools hook named_config broken engine).2 in
    let e = bytes "failed to connect to database: refused" in
    (after.last_error ≡ some e)
    × (after.last_run ≡ zero_time)
    × ((run local codec tools hook named_config broken engine).0.error ≡ some e)
    × (after.posted ≡ [] ++ notify_failure hook (day_time 12) (started named_config broken).id e)
run_failed_example =
    run_failed local codec tools hook named_config broken engine
      (bytes "failed to connect to database: refused") fails

run_succeeded_example :
    let after = (run local codec tools hook named_config world engine).2 in
    let r = (run local codec tools hook named_config world engine).0 in
    (after.last_error ≡ none)
    × (after.last_run ≡ day_time 12)
    × (after.posted
        ≡ (elim r.verify_error [
          | none ↦ []
          | some e ↦
              []
              ++ notify_failure hook (day_time 12) r.id (bytes "backup verification failed: " ++ e)
        ])
          ++ notify_success hook (day_time 12) r.id r.size r.duration)
run_succeeded_example = run_succeeded local codec tools hook named_config world engine succeeds

abbrev pub prepared : Prepared
unfolding driver_config
prepared = record {
  driver = postgres (driver_config named_config);
  version = bytes "16";
  path = (started named_config world).id ++ bytes ".dump";
  text = bytes "dump";
  size = pos 4;
  compressed_size = pos 4;
  checksum = bytes "sum";
}

pub made : prepare named_config world ≡ ok prepared
unfolding prepare new_driver has_str driver_config is_sqlite to_lower
made = refl

-- The metadata of this run is what the stored text is parsed to.
abbrev pub run_codec : Codec
run_codec = record codec { parse = λ text. ok (run_metadata named_config world prepared) }

pub stores : (run local run_codec tools hook named_config world engine).1 ≡ none
unfolding run prepare new_driver has_str driver_config write
stores = refl

run_stored_example :
    let after = (run local run_codec tools hook named_config world engine).2.storage in
    (content_at slashes (insertion modified_at) base after prepared.path ≡ some (bytes "dump"))
    × (get_backup local run_codec (started named_config world).id after
        ≡ ok (run_metadata named_config world prepared))
    × ((run_metadata named_config world prepared).files ≡ prepared.path ∷ [])
unfolding prepared
run_stored_example =
    run_stored local run_codec tools hook named_config world engine prepared made stores IsSound
      all_names (content_at slashes (insertion modified_at) base) local-IsMap disk-IsSound
      (run_metadata named_config world prepared).id refl refl refl refl

abbrev pub restoring : RestoreWorld
restoring = record {
  parse = λ text. ok (run_metadata named_config world prepared);
  mkdir_temp = ok tt;
  storage_text = λ e. e.op;
  gzip_header = λ text. ok tt;
  gunzip = λ text. ok text;
  create_local = ok tt;
  create_copy = ok tt;
  checksum = λ text. ok (bytes "sum");
  pg_restore = λ text options. ok tt;
  parse_url = λ text. none;
}

abbrev pub latest : RestoreOptions
latest = record {
  backup_id = (started named_config world).id;
  target_db = bytes "copy";
  dry_run = false;
  force = false;
  verify_checksum = true;
}

pub can_restore :
    Restores restoring world
      (bytes "dump")
      (run_metadata named_config world prepared).id
      (run_metadata named_config world prepared)
can_restore = record {
  parses = refl;
  unzips = λ packed zipped. (refl, ap ok (ok_injective zipped));
  sums = λ content. refl;
  temp_made = refl;
  local_made = refl;
  copy_made = refl;
}
  where
    ok_injective :
        {packed : Str} → world.compress (bytes "dump") ≡ ok packed → packed ≡ bytes "dump"
    ok_injective h = ground (arith, h)

pub dumps :
    make_dump named_config world
    ≡ ok (postgres (driver_config named_config), bytes "16", bytes "dump")
unfolding make_dump new_driver has_str driver_config
dumps = refl
