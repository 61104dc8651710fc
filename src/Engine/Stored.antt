-- ===== src/Engine/Stored.antt =====
-- What a successful run of internal/backup/engine.go has stored.
use mathlib.Core.List.{Mem, reverse-append}
use datasaver.Base.{
  Bool, true, false, Str, bytes, List, [], ◌∷◌, ◌++◌, Option, none, some, str_eq, str_eq_iff, ok,
  ◌≡◌, refl, ◌∙◌, inl, inr, arith, Bool-cases, Result-cases, has_suffix, has_suffix-append,
  str_eq_refl,
}
use datasaver.Config.{Config, is_sqlite}
use datasaver.Metadata.{
  BackupMetadata, new_backup_metadata, set_backup_info, set_retention, add_file,
}
use datasaver.Notify.{Notifier}
use datasaver.Storage.{Backend}
use datasaver.Storage.Laws.{IsMap, IsListed}
use datasaver.Validator.{Tools, meta_suffix, verify_restore_integrity}
use datasaver.Engine.{Codec, list_backups, get_backup}
use datasaver.Engine.Listing.{get_backup-Mem-list_backups}
use datasaver.Engine.Run.{
  Engine, BackupResult, World, Prepared, prepare, prepared_result, run_metadata, write_metadata,
  verify, complete, run, started, make_dump, compressed, dump_path,
}

-- Names that end otherwise are no metadata files.
suffix_sql : (s : Str) → has_suffix (s ++ bytes ".sql") meta_suffix ≡ false
unfolding has_suffix
suffix_sql s = rw reverse-append

suffix_dump : (s : Str) → has_suffix (s ++ bytes ".dump") meta_suffix ≡ false
unfolding has_suffix
suffix_dump s = rw reverse-append

suffix_gz : (s : Str) → has_suffix (s ++ bytes ".gz") meta_suffix ≡ false
unfolding has_suffix
suffix_gz s = rw reverse-append

dump_path-suffix : (cfg : Config) (w : World) → has_suffix (dump_path cfg w) meta_suffix ≡ false
unfolding dump_path
dump_path-suffix cfg w = elim (Bool-cases (is_sqlite cfg)) [
  | inl lite ↦ rw lite (suffix_sql (started cfg w).id)
  | inr other ↦ rw other (suffix_dump (started cfg w).id)
]

compressed-path :
    (cfg : Config) (w : World) (text path final : Str)
    → compressed cfg w text ≡ ok (path, final)
    → has_suffix path meta_suffix ≡ false
unfolding compressed
compressed-path cfg w text path final h =
    ground (arith, suffix_gz (dump_path cfg w), dump_path-suffix cfg w)

-- The file that a run stores is no metadata file.
pub prepare-path :
    (cfg : Config) (w : World) (p : Prepared)
    → prepare cfg w ≡ ok p
    → has_suffix p.path meta_suffix ≡ false
unfolding prepare
prepare-path cfg w p h = elim (Result-cases (make_dump cfg w)) [
  | inr (r, failed) ↦ cc (rw (failed, prepare) at h)
  | inl ((driver, version, text), made) ↦ elim (Result-cases (compressed cfg w text)) [
    | inr (r, failed) ↦ ground (arith, made, failed)
    | inl ((path, final), packed) ↦
        ground (arith, made, packed, compressed-path cfg w text path final packed)
  ]
]

-- It is not the metadata file of the run.
pub prepare-apart :
    (cfg : Config) (w : World) (p : Prepared)
    → prepare cfg w ≡ ok p
    → str_eq ((started cfg w).id ++ meta_suffix) p.path ≡ false
prepare-apart cfg w p made = elim (Bool-cases (str_eq ((started cfg w).id ++ meta_suffix) p.path)) [
  | inr other ↦ other
  | inl same ↦
      let e = (str_eq_iff ((started cfg w).id ++ meta_suffix) p.path).0 same in
      cc (rw e at (has_suffix-append (started cfg w).id meta_suffix), prepare-path cfg w p made)
]

pub run_metadata-id :
    (cfg : Config) (w : World) (p : Prepared) → (run_metadata cfg w p).id ≡ (started cfg w).id
unfolding run_metadata new_backup_metadata set_backup_info set_retention add_file
run_metadata-id cfg w p = refl

module _ (b : Backend) (k : Codec) (t : Tools) (notifier : Option Notifier) (cfg : Config)
    (w : World) where
  pub verify-storage :
      (m : BackupMetadata) (r : BackupResult) (g : Engine b)
      → (verify b k t notifier cfg w m r g).1.storage ≡ g.storage
  unfolding verify
  verify-storage m r g = elim (Bool-cases cfg.backup.verify_after_backup) [
    | inr skips ↦ rw (skips, verify)
    | inl verifies ↦
        elim (Result-cases (verify_restore_integrity b t cfg.database.type m g.storage)) [
          | inl (u, fine) ↦ rw (verifies, fine, verify)
          | inr (e, bad) ↦ rw (verifies, bad, verify)
        ]
  ]

  complete-storage :
      (p : Prepared) (r : BackupResult) (g : Engine b) (text : Str)
      → k.to_json (run_metadata cfg w p) ≡ ok text
      → (complete b k t notifier cfg w p r g).1.storage
        ≡ (b.write ((started cfg w).id ++ meta_suffix) (ok text) g.storage).1
  unfolding complete
  complete-storage p r g text json =
      rw (complete, verify-storage) (rw (json, write_metadata) (rw (run_metadata-id cfg w p)))

module _ (b : Backend) (k : Codec) (t : Tools) (notifier : Option Notifier) (cfg : Config)
    (w : World) (g : Engine b) (p : Prepared) (made : prepare cfg w ≡ ok p)
    (success : (run b k t notifier cfg w g).1 ≡ none) where
  abbrev after : b.State
  after = (run b k t notifier cfg w g).2.storage

  -- The storage after the two writes of a successful run.
  abbrev with_dump : b.State
  with_dump = (b.write p.path (ok p.text) g.storage).1

  pub storage-run :
      (text : Str)
      → k.to_json (run_metadata cfg w p) ≡ ok text
      → (run b k t notifier cfg w g).2.storage
        ≡ (b.write ((started cfg w).id ++ meta_suffix) (ok text) with_dump).1
  unfolding run
  storage-run text json = elim (Result-cases (b.write p.path (ok p.text) g.storage).0) [
    | inr (e, refused) ↦ absurd (refused_run (rw (made, refused, run) at success))
    | inl (u, written) ↦
        rw (made, written, run)
          (complete-storage b k t notifier cfg w p (prepared_result cfg w p)
            (record g { storage = with_dump }) text json)
  ]
    where
      refused_run : {e : Str} → some e ≡ none → ⊥
      refused_run h = cc

  module _ (Good : b.State → Type 0) (names : Str → Bool) (view : b.State → Str → Option Str)
      (law : IsMap b Good names view) (good : Good g.storage) (text : Str)
      (json : k.to_json (run_metadata cfg w p) ≡ ok text) (name : names p.path ≡ true)
      (meta_name : names ((started cfg w).id ++ meta_suffix) ≡ true) where
    abbrev meta_path : Str
    meta_path = (started cfg w).id ++ meta_suffix

    good_dump : Good with_dump
    good_dump = law.write_Good p.path p.text g.storage good

    pub view-meta : view after meta_path ≡ some text
    view-meta =
        rw
          (
            storage-run text json,
            law.write_view meta_path text with_dump meta_path good_dump meta_name meta_name,
          )
          (rw (str_eq_refl meta_path))

    pub view-dump : view after p.path ≡ some p.text
    view-dump =
        let kept = law.write_view meta_path text with_dump p.path good_dump meta_name name in
        let first = law.write_view p.path p.text g.storage p.path good name name in
        rw (storage-run text json, kept, prepare-apart cfg w p made)
          (rw first (rw (str_eq_refl p.path)))

    pub after_Good : Good after
    after_Good = rw (storage-run text json) (law.write_Good meta_path text with_dump good_dump)

    pub read-meta : b.read meta_path after ≡ ok (ok text)
    read-meta = rw (law.read_view meta_path after after_Good, view-meta)

    get-after : get_backup b k (started cfg w).id after ≡ k.parse text
    unfolding get_backup
    get-after = rw (read-meta, get_backup)

    -- On a backend that is a map and tells the names of the two files of a run apart, and where
    -- ToJSON succeeds on the metadata of the run and the codec reads back what it wrote: after a
    -- run without an error the storage holds the prepared bytes under their name, and GetBackup
    -- finds the metadata of the run under its ID, which lists that name alone.
    pub run_stored :
        k.parse text ≡ ok (run_metadata cfg w p)
        → (view after p.path ≡ some p.text)
          × (get_backup b k (started cfg w).id after ≡ ok (run_metadata cfg w p))
          × ((run_metadata cfg w p).files ≡ p.path ∷ [])
    unfolding run_metadata new_backup_metadata set_backup_info set_retention add_file
    run_stored parses = (view-dump, get-after ∙ parses, refl)

    -- On a backend that is a map and whose List shows what it holds: after a run without an error
    -- ListBackups succeeds, and the metadata of the run is in its list, if the codec reads back
    -- what it wrote.
    pub run_listed :
        k.parse text ≡ ok (run_metadata cfg w p)
        → {Listable : b.State → Type 0} → IsListed b Listable names view
        → Listable g.storage
        → (ms : List BackupMetadata) × (list_backups b k after ≡ ok ms)
          × Mem (run_metadata cfg w p) ms
    run_listed parses {Listable} lists listable =
        let still : Listable after = rw (storage-run text json) (
          lists.write_Listable meta_path text with_dump
            (lists.write_Listable p.path p.text g.storage listable)) in
        let (files, shown, found) = lists.list_view after still in
        let (f, f_in, named) = found meta_path text meta_name view-meta in
        get_backup-Mem-list_backups b k after (started cfg w).id (run_metadata cfg w p) files f
          shown f_in named (get-after ∙ parses)
