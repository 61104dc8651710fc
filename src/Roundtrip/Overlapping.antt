-- ===== src/Roundtrip/Overlapping.antt =====
-- A backup of internal/backup/engine.go, restored while other runs and cleanups overlap its run.
use datasaver.Base.{
  has_str, Bool, true, false, Str, [], ◌∷◌, ◌++◌, Option, some, ok, ◌≡◌, ◌∙◌, sym, subst, ℕ,
  str_eq_refl,
}
use datasaver.Base.Sorting.{Sorter}
use datasaver.Clock.{Time}
use datasaver.Config.{Config}
use datasaver.Driver.{Driver}
use datasaver.Metadata.{generate_backup_id}
use datasaver.Notify.{Notifier}
use datasaver.Rotation.Policy.{Policy}
use datasaver.Rotation.Gfs.{stamp}
use datasaver.Storage.{Backend}
use datasaver.Storage.Calls.{writes, exec}
use datasaver.Storage.Laws.{IsMap}
use datasaver.Validator.{Tools, meta_suffix}
use datasaver.Engine.{Codec}
use datasaver.Engine.Frame.{file_suffixes, has_str-meta_suffix, prepare-name}
use datasaver.Engine.Overlap.{Threads, IsForeign, Reach, Reach-Keeps}
use datasaver.Engine.Run.{Prepared, prepare, run_metadata, started, make_dump}
use datasaver.Engine.Run.{World as BackupWorld}
use datasaver.Engine.Stored.{prepare-apart}
use datasaver.Restore.{RestoreOptions, World, restore, target, parse_connection_info}
use datasaver.Roundtrip.{Restores, calls-restore_stored}

-- The next call of the run itself, among the other threads.
abbrev pub own_write : (b : Backend) → Str → Str → Threads b → Threads b
own_write b path text x = record x { storage = exec b (writes path text) x.storage }

module _ (b : Backend) (k : Codec) (t : Tools) (notifier : Option Notifier) (cfg : Config)
    (sorter : Sorter stamp) (policy : Policy) (w : BackupWorld) (p : Prepared)
    (prepared : prepare cfg w ≡ ok p) {Good : b.State → Type 0} {names : Str → Bool}
    {view : b.State → Str → Option Str} (law : IsMap b Good names view)
    (named : (u : Time) (suffix : Str)
      → has_str suffix file_suffixes ≡ true
      → names (generate_backup_id u ++ suffix) ≡ true)
    (text : Str) where
  abbrev meta_path : Str
  meta_path = (started cfg w).id ++ meta_suffix

  -- On a backend that is a map, where the names of the files of backups are told apart: a run makes
  -- its two writes, and before, between and behind them other runs, cleanups that spare its files
  -- when they list the backups, and ends of threads overlap in any order. Then a restore of its ID,
  -- where it can make its temporary files, unpack what gzip has packed, sum up as the run has and
  -- parse the metadata, calls pg_restore once, with the bytes that were dumped.
  pub restore_overlapped :
      (rw' : World) (rcfg : Config) (opts : RestoreOptions) (driver : Driver) (version dump : Str)
      (x y z : Threads b)
      → make_dump cfg w ≡ ok (driver, version, dump)
      → Restores rw' w dump text (run_metadata cfg w p)
      → opts.backup_id ≡ (started cfg w).id
      → opts.dry_run ≡ false
      → Good x.storage
      → ((i : ℕ) → IsForeign names w.start (x.pending i))
      → Reach b k t notifier cfg sorter policy names w.start (own_write b p.path p.text x) y
      → Reach b k t notifier cfg sorter policy names w.start (own_write b meta_path text y) z
      → (restore b rw' rcfg opts z.storage).calls
        ≡ record {
          text = dump;
          options = record (parse_connection_info rw' rcfg) {
            database = target b rw' rcfg opts z.storage (run_metadata cfg w p);
          };
        }
          ∷ []
  unfolding exec
  restore_overlapped rw' rcfg opts driver version dump x y z dumped can same real good quiet r1 r2 =
      let (suffix, own_suffix, name) = prepare-name cfg w p prepared in
      let named_dump : names p.path ≡ true = rw name (named w.start suffix own_suffix) in
      let named_meta = named w.start meta_suffix has_str-meta_suffix in
      let keeps =
        Reach-Keeps b k t notifier cfg sorter policy names w.start law named
          (law.write_Good p.path p.text x.storage good) quiet r1 in
      let kept =
        Reach-Keeps b k t notifier cfg sorter policy names w.start law named
          (law.write_Good meta_path text y.storage keeps.good) keeps.foreign r2 in
      let dump_written : view (exec b (writes p.path p.text) x.storage) p.path ≡ some p.text =
        rw (law.write_view p.path p.text x.storage p.path good named_dump named_dump)
          (rw (str_eq_refl p.path)) in
      let dump_kept : view y.storage p.path ≡ some p.text =
        subst (λ q. view y.storage q ≡ view (own_write b p.path p.text x).storage q) (sym name)
          (keeps.same suffix (named w.start suffix own_suffix))
        ∙ dump_written in
      let dump_there : view z.storage p.path ≡ some p.text =
        subst (λ q. view z.storage q ≡ view (own_write b meta_path text y).storage q) (sym name)
          (kept.same suffix (named w.start suffix own_suffix))
        ∙ rw
            (
              law.write_view meta_path text y.storage p.path keeps.good named_meta named_dump,
              prepare-apart cfg w p prepared,
            )
            dump_kept in
      let meta_there : view z.storage meta_path ≡ some text =
        kept.same meta_suffix named_meta
        ∙ rw (law.write_view meta_path text y.storage meta_path keeps.good named_meta named_meta)
            (rw (str_eq_refl meta_path)) in
      calls-restore_stored b law rw' rcfg opts cfg w p driver version dump text prepared dumped can
        same real z.storage kept.good dump_there meta_there
