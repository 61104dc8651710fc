-- ===== src/Tests/Run/Verified.antt =====
-- An example of the theorem on the verification at the end of a run.
use datasaver.Base.{true, bytes, ◌++◌, none, ok, ◌≡◌, ◌↔◌, refl, sym, has_str, to_lower}
use datasaver.Base.Sorting.Insertion.{insertion}
use datasaver.Config.{Config, is_sqlite}
use datasaver.Driver.{postgres, new_driver}
use datasaver.Metadata.{generate_backup_id}
use datasaver.Storage.Local.{modified_at, write}
use datasaver.Storage.Local.Laws.{IsSound, content_at}
use datasaver.Engine.Run.{Prepared, started, driver_config, prepare, make_dump, run_metadata, run}
use datasaver.Engine.Verified.{check_dump, run_verified_iff}
use datasaver.Tests.Data.{
  codec, slashes, base, local, all_names, local-IsMap, disk-IsSound, tools, named_config,
}
use datasaver.Tests.Run.{world, engine, hook, prepared}

abbrev checking : Config
checking = record named_config {
  backup = record named_config.backup { verify_after_backup = true };
  compression = bytes "gzip";
}

abbrev packed : Prepared
unfolding prepared
packed = record prepared { path = (started checking world).id ++ bytes ".dump.gz" }

packs : prepare checking world ≡ ok packed
unfolding prepare new_driver has_str driver_config is_sqlite to_lower prepared packed
    generate_backup_id
packs = refl

stores : (run local codec tools hook checking world engine).1 ≡ none
unfolding run prepare new_driver has_str driver_config write
stores = refl

run_verified_iff_example :
    (run local codec tools hook checking world engine).0.verified ≡ true
    ↔ check_dump local tools checking.database.type (bytes "dump") ≡ ok tt
unfolding make_dump new_driver has_str driver_config packed prepared
run_verified_iff_example =
    run_verified_iff local codec tools hook checking world engine packed packs stores IsSound
      all_names (content_at slashes (insertion modified_at) base) local-IsMap disk-IsSound
      (run_metadata checking world packed).id refl refl refl (postgres (driver_config checking))
      (bytes "16") (bytes "dump") refl refl refl (λ z h. sym h)
