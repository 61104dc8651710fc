-- ===== src/Engine/Interleaved.antt =====
-- A run and a cleanup of internal/backup/engine.go at the same time, as the scheduler and the MCP
-- tools start them, and a run that is cut off: their calls of the storage, one by one.
use datasaver.Base.{
  ℕ, zero, suc, Bool, true, false, Str, List, [], ◌∷◌, ◌++◌, map, Option, none, some, if◌then◌else◌,
  str_eq, str_eq_refl, str_eq_iff, has_str, take, ok, ◌≡◌, refl, ap, ◌∙◌, sym, arith, All,
  Bool-cases, inl, inr,
}
use datasaver.Base.Sorting.{Sorter}
use datasaver.Clock.{Time}
use datasaver.Config.{Config}
use datasaver.Metadata.{BackupMetadata}
use datasaver.Notify.{Notifier}
use datasaver.Rotation.Policy.{Policy}
use datasaver.Rotation.Gfs.{stamp, determine_backups_to_delete}
use datasaver.Storage.{Backend}
use datasaver.Storage.Calls.{
  Call, writes, deletes, path_of, Interleaves, neither, first, second, Skips, touch_all,
  touch_all-Interleaves, exec, exec_all, view-exec_all,
}
use datasaver.Storage.Laws.{IsMap}
use datasaver.Validator.{Tools, meta_suffix}
use datasaver.Engine.{Codec, list_backups, get_backup, delete_files, delete_backups, cleanup}
use datasaver.Engine.Cleaning.{files_of, AllNames, AllNames-files_of, cleanup_view, cleanup-Good}
use datasaver.Engine.Run.{Engine, World, Prepared, prepare, run, run_metadata, started}
use datasaver.Engine.Stored.{storage-run, prepare-apart}

module _ (b : Backend) (k : Codec) where
  exec_all-deletes :
      (fs gs : List Str) (s : b.State)
      → exec_all b (map deletes (fs ++ gs)) s ≡ exec_all b (map deletes gs) (delete_files b k fs s)
  unfolding exec_all exec delete_files
  exec_all-deletes [] gs s = refl
  exec_all-deletes (f ∷ fs) gs s = exec_all-deletes fs gs (b.delete f s).1

  delete_backups-calls :
      (ds : List BackupMetadata) (s : b.State)
      → (delete_backups b k ds s).1 ≡ exec_all b (map deletes (files_of ds)) s
  unfolding delete_backups exec_all
  delete_backups-calls [] s = refl
  delete_backups-calls (d ∷ ds) s =
      delete_backups-calls ds (delete_files b k d.files s)
      ∙ sym (exec_all-deletes d.files (files_of ds) s)

  -- A cleanup deletes the files of the backups that the rotation gives, in their order.
  pub cleanup-calls :
      (sorter : Sorter stamp) (p : Policy) (now : Time) (s : b.State) (ms : List BackupMetadata)
      → list_backups b k s ≡ ok ms
      → (cleanup b k sorter p now s).1
        ≡ exec_all b (map deletes (files_of (determine_backups_to_delete sorter p now ms))) s
  unfolding cleanup
  cleanup-calls sorter p now s ms listed =
      rw (listed, cleanup) (delete_backups-calls (determine_backups_to_delete sorter p now ms) s)

-- Deletes at a path.
touch_all-deletes :
    (q : Str) (fs : List Str) (o : Option Str)
    → touch_all q (map deletes fs) o ≡ (if has_str q fs then none else o)
unfolding has_str
touch_all-deletes q [] o = refl
touch_all-deletes q (f ∷ fs) o =
    ground (arith, touch_all-deletes q fs (if str_eq f q then none else o))

pub Skips-deletes : (q : Str) (fs : List Str) → has_str q fs ≡ false → Skips q (map deletes fs)
unfolding has_str
Skips-deletes q [] h = tt
Skips-deletes q (f ∷ fs) h = (ground (arith, h), Skips-deletes q fs (ground (arith, h)))

swapped : {xs ys zs : List Call} → Interleaves xs ys zs → Interleaves ys xs zs
swapped neither = neither
swapped (first x i) = second x (swapped i)
swapped (second y i) = first y (swapped i)

named_all :
    (names : Str → Bool) {xs ys zs : List Call}
    → Interleaves xs ys zs
    → All (λ c. names (path_of c) ≡ true) xs
    → All (λ c. names (path_of c) ≡ true) ys
    → All (λ c. names (path_of c) ≡ true) zs
named_all names neither hx hy = tt
named_all names (first x i) hx hy = (hx.0, named_all names i hx.1 hy)
named_all names (second y i) hx hy = (hy.0, named_all names i hx hy.1)

pub named_deletes :
    (names : Str → Bool) (fs : List Str)
    → AllNames names fs
    → All (λ c. names (path_of c) ≡ true) (map deletes fs)
named_deletes names [] h = tt
named_deletes names (f ∷ fs) h = (h.0, named_deletes names fs h.1)

module _ (b : Backend) (k : Codec) (t : Tools) (notifier : Option Notifier) (cfg : Config)
    (w : World) (g : Engine b) (p : Prepared) (made : prepare cfg w ≡ ok p) (text : Str)
    (json : k.to_json (run_metadata cfg w p) ≡ ok text) where
  abbrev pub meta_path : Str
  meta_path = (started cfg w).id ++ meta_suffix

  -- The two calls of a run that succeeds.
  abbrev pub run_calls : List Call
  run_calls = writes p.path p.text ∷ writes meta_path text ∷ []

  pub run-calls :
      (run b k t notifier cfg w g).1 ≡ none
      → (run b k t notifier cfg w g).2.storage ≡ exec_all b run_calls g.storage
  unfolding exec_all exec
  run-calls success = storage-run b k t notifier cfg w g p made success text json

  module _ {Good : b.State → Type 0} {names : Str → Bool} {view : b.State → Str → Option Str}
      (law : IsMap b Good names view) (good : Good g.storage) (name : names p.path ≡ true)
      (meta_name : names meta_path ≡ true) where
    -- However the writes of a run and deletions that spare its files follow each other, what every
    -- file is in the end.
    view-interleaved :
        (files : List Str) (calls : List Call) (q : Str)
        → Interleaves run_calls (map deletes files) calls
        → AllNames names files
        → has_str p.path files ≡ false
        → has_str meta_path files ≡ false
        → names q ≡ true
        → view (exec_all b calls g.storage) q ≡ (
            if str_eq p.path q
            then some p.text
            else if str_eq meta_path q
            then some text
            else if has_str q files
            then none
            else view g.storage q)
    view-interleaved files calls q i all_named spares_dump spares_meta nq =
        let seen =
          view-exec_all b law calls g.storage q good
            (named_all names i (name, (meta_name, tt)) (named_deletes names files all_named)) nq in
        elim (Bool-cases (str_eq p.path q)) [
          | inl mine ↦
              let e = (str_eq_iff p.path q).0 mine in
              seen
              ∙ touch_all-Interleaves q (view g.storage q) i
                  (Skips-deletes q files (rw e at spares_dump))
              ∙ rw (mine, rw e at (prepare-apart cfg w p made)) refl
          | inr other ↦ elim (Bool-cases (str_eq meta_path q)) [
            | inl mine ↦
                seen
                ∙ touch_all-Interleaves q (view g.storage q) i
                    (Skips-deletes q files (rw ((str_eq_iff meta_path q).0 mine) at spares_meta))
                ∙ rw (other, mine) refl
            | inr free ↦
                seen
                ∙ touch_all-Interleaves q (view g.storage q) (swapped i) (other, (free, tt))
                ∙ touch_all-deletes q files (view g.storage q)
                ∙ rw (other, free) refl
          ]
        ]

    view-run_calls :
        (s : b.State) (q : Str)
        → Good s
        → names q ≡ true
        → view (exec_all b run_calls s) q ≡ (
            if str_eq p.path q
            then some p.text
            else if str_eq meta_path q
            then some text
            else view s q)
    view-run_calls s q fine nq = elim (Bool-cases (str_eq p.path q)) [
      | inl mine ↦
          view-exec_all b law run_calls s q fine (name, (meta_name, tt)) nq
          ∙ rw (mine, rw ((str_eq_iff p.path q).0 mine) at (prepare-apart cfg w p made)) refl
      | inr other ↦
          view-exec_all b law run_calls s q fine (name, (meta_name, tt)) nq ∙ rw other refl
    ]

    -- The engine behind a cleanup.
    abbrev pub cleaned : Sorter stamp → Policy → Time → Engine b
    cleaned sorter policy now = record g { storage = (cleanup b k sorter policy now g.storage).1 }

    -- On a backend that is a map and tells the names of the files of a run and of the deleted
    -- backups apart, and where ToJSON succeeds on the metadata of the run: a cleanup lists the
    -- backups and chooses some that hold neither file of the run, and its deletions and the writes
    -- of the run follow each other in any order. Then every file whose name is told apart is as
    -- after the cleanup and, behind it, the run, where that run returns no error.
    pub run-cleanup_serial :
        (sorter : Sorter stamp) (policy : Policy) (now : Time) (ms : List BackupMetadata)
        (calls : List Call) (q : Str)
        → list_backups b k g.storage ≡ ok ms
        → Interleaves run_calls
            (map deletes (files_of (determine_backups_to_delete sorter policy now ms)))
            calls
        → All (λ m. AllNames names m.files) (determine_backups_to_delete sorter policy now ms)
        → has_str p.path (files_of (determine_backups_to_delete sorter policy now ms)) ≡ false
        → has_str meta_path (files_of (determine_backups_to_delete sorter policy now ms)) ≡ false
        → names q ≡ true
        → (run b k t notifier cfg w (cleaned sorter policy now)).1 ≡ none
        → view (exec_all b calls g.storage) q
          ≡ view (run b k t notifier cfg w (cleaned sorter policy now)).2.storage q
    unfolding exec_all exec
    run-cleanup_serial sorter policy now ms calls q listed i all_named spares_dump spares_meta nq
          success =
        let deleted = determine_backups_to_delete sorter policy now ms in
        let before = cleanup b k sorter policy now g.storage in
        let (_, gone) =
          cleanup_view b k Good names view law sorter policy now g.storage good ms listed all_named
            q nq in
        let wrote =
          storage-run b k t notifier cfg w (cleaned sorter policy now) p made success text json in
        let serial =
          view-run_calls before.1 q
            (cleanup-Good b k Good names view law sorter policy now g.storage good) nq in
        view-interleaved (files_of deleted) calls q i (AllNames-files_of names deleted all_named)
          spares_dump spares_meta nq
        ∙ sym (ap (λ s. view s q) wrote ∙ serial ∙ rw gone refl)

    dump_there : view (exec b (writes p.path p.text) g.storage) p.path ≡ some p.text
    unfolding exec
    dump_there =
        rw (law.write_view p.path p.text g.storage p.path good name name) (rw (str_eq_refl p.path))

    both_there : view (exec_all b run_calls g.storage) p.path ≡ some p.text
    both_there =
        view-exec_all b law run_calls g.storage p.path good (name, (meta_name, tt)) name
        ∙ rw (str_eq_refl p.path, prepare-apart cfg w p made) refl

    -- The metadata is written last: on a backend that is a map, and that has nothing under the
    -- name of the run's metadata before, a run that is cut off after any number of its calls
    -- leaves a storage in which a backup that GetBackup finds under the run's ID has its data file
    -- with all its bytes.
    pub run_interrupted :
        (n : ℕ) (m : BackupMetadata)
        → view g.storage meta_path ≡ none
        → get_backup b k (started cfg w).id (exec_all b (take n run_calls) g.storage) ≡ ok m
        → view (exec_all b (take n run_calls) g.storage) p.path ≡ some p.text
    unfolding exec_all exec get_backup
    run_interrupted zero m fresh got =
        cc (rw (get_backup, law.read_view meta_path g.storage good, fresh) at got)
    run_interrupted (suc zero) m fresh got = dump_there
    run_interrupted (suc (suc zero)) m fresh got = both_there
    run_interrupted (suc (suc (suc n))) m fresh got = both_there
