-- ===== src/Engine/Cleaning.antt =====
-- What Cleanup of internal/backup/engine.go leaves in a storage that is a map from paths.
use datasaver.Base.{
  suc, Bool, true, false, Str, List, [], ◌∷◌, ◌++◌, Option, none, if◌then◌else◌, str_eq, length, ok,
  err, ◌≡◌, refl, ap, arith, Bool-cases, Result-cases, inl, inr, All, All-map, All-append, has_str,
  has_str-append, has_suffix, has_suffix-append, str_eq_iff,
}
use datasaver.Base.Sorting.{Sorter}
use datasaver.Clock.{Time}
use datasaver.Metadata.{BackupMetadata}
use datasaver.Storage.{Backend, StorageError}
use datasaver.Storage.Laws.{IsMap}
use datasaver.Rotation.Policy.{Policy}
use datasaver.Rotation.Gfs.{stamp, determine_backups_to_delete}
use datasaver.Validator.{meta_suffix}
use datasaver.Engine.{Codec, delete_files, delete_backups, list_backups, get_backup, cleanup}

abbrev pub files_of : List BackupMetadata → List Str
files_of [] = []
files_of (m ∷ ms) = m.files ++ files_of ms

abbrev pub AllNames : (Str → Bool) → List Str → Type 0
AllNames names = All (λ f. names f ≡ true)

pub AllNames-files_of :
    (names : Str → Bool) (ms : List BackupMetadata)
    → All (λ m. AllNames names m.files) ms
    → AllNames names (files_of ms)
AllNames-files_of names [] h = tt
AllNames-files_of names (m ∷ ms) h =
    All-append _ m.files (files_of ms) h.0 (AllNames-files_of names ms h.1)

module _ (b : Backend) (k : Codec) (Good : b.State → Type 0) (names : Str → Bool)
    (view : b.State → Str → Option Str) (law : IsMap b Good names view) where
  delete_files-Good : (fs : List Str) (s : b.State) → Good s → Good (delete_files b k fs s)
  unfolding delete_files
  delete_files-Good [] s g = g
  delete_files-Good (f ∷ fs) s g = delete_files-Good fs (b.delete f s).1 (law.delete_Good f s g)

  view-delete_files :
      (fs : List Str) (s : b.State) (q : Str)
      → Good s
      → AllNames names fs
      → names q ≡ true
      → view (delete_files b k fs s) q ≡ (if has_str q fs then none else view s q)
  unfolding delete_files has_str
  view-delete_files [] s q g n nq = refl
  view-delete_files (f ∷ fs) s q g n nq =
      let ih = view-delete_files fs (b.delete f s).1 q (law.delete_Good f s g) n.1 nq in
      let now = law.delete_view f s q g n.0 nq in ground (arith, ih, now)

  delete_backups-Good :
      (ms : List BackupMetadata) (s : b.State) → Good s → Good (delete_backups b k ms s).1
  unfolding delete_backups
  delete_backups-Good [] s g = g
  delete_backups-Good (m ∷ ms) s g =
      delete_backups-Good ms (delete_files b k m.files s) (delete_files-Good m.files s g)

  view-delete_backups :
      (ms : List BackupMetadata) (s : b.State) (q : Str)
      → Good s
      → All (λ m. AllNames names m.files) ms
      → names q ≡ true
      → view (delete_backups b k ms s).1 q ≡ (if has_str q (files_of ms) then none else view s q)
  unfolding delete_backups
  view-delete_backups [] s q g n nq = unfold has_str in refl
  view-delete_backups (m ∷ ms) s q g n nq =
      let now = view-delete_files m.files s q g n.0 nq in
      let s' = delete_files b k m.files s in
      let ih = view-delete_backups ms s' q (delete_files-Good m.files s g) n.1 nq in
      ground (arith, ih, now, has_str-append q m.files (files_of ms))

  count-delete_backups :
      (ms : List BackupMetadata) (s : b.State) → (delete_backups b k ms s).0 ≡ length ms
  unfolding delete_backups
  count-delete_backups [] s = refl
  count-delete_backups (m ∷ ms) s = ap suc (count-delete_backups ms _)

  module _ (sorter : Sorter stamp) (p : Policy) (now : Time) (s : b.State) (g : Good s)
      (ms : List BackupMetadata) (listed : list_backups b k s ≡ ok ms) where
    abbrev deleted : List BackupMetadata
    deleted = determine_backups_to_delete sorter p now ms

    -- On a backend that is a map, and where the backups are listed and the names of their files are
    -- told apart: Cleanup reports the number of backups that the rotation deletes, removes exactly
    -- their files, and leaves every other file as it was.
    pub cleanup_view :
        All (λ m. AllNames names m.files) deleted
        → (q : Str) → names q ≡ true
        → ((cleanup b k sorter p now s).0 ≡ ok (length deleted))
          × (view (cleanup b k sorter p now s).1 q
              ≡ (if has_str q (files_of deleted) then none else view s q))
    unfolding cleanup
    cleanup_view n q nq =
        rw (listed, cleanup)
          (ap ok (count-delete_backups deleted s), view-delete_backups deleted s q g n nq)

  pub cleanup-Good :
      (sorter : Sorter stamp) (p : Policy) (now : Time) (s : b.State)
      → Good s
      → Good (cleanup b k sorter p now s).1
  unfolding cleanup
  cleanup-Good sorter p now s g = elim (Result-cases (list_backups b k s)) [
    | inl (ms, listed) ↦
        rw (listed, cleanup) (delete_backups-Good (determine_backups_to_delete sorter p now ms) s g)
    | inr (e, broken) ↦ rw (broken, cleanup) g
  ]

  -- No file of the list is a metadata file.
  abbrev pub DataOnly : List Str → Type 0
  DataOnly = All (λ f. has_suffix f meta_suffix ≡ false)

  not-has_str_of_DataOnly :
      (fs : List Str) (q : Str)
      → has_suffix q meta_suffix ≡ true
      → DataOnly fs
      → has_str q fs ≡ false
  unfolding has_str
  not-has_str_of_DataOnly [] q h d = refl
  not-has_str_of_DataOnly (f ∷ fs) q h (df, d) = elim (Bool-cases (str_eq f q)) [
    | inl same ↦ absurd (clash (rw (← (str_eq_iff f q).0 same) at h))
    | inr other ↦ ground (arith, other, not-has_str_of_DataOnly fs q h d)
  ]
    where
      clash : has_suffix f meta_suffix ≡ true → ⊥
      clash e = ground arith

  DataOnly-files_of :
      (ms : List BackupMetadata) → All (λ m. DataOnly m.files) ms → DataOnly (files_of ms)
  DataOnly-files_of [] h = tt
  DataOnly-files_of (m ∷ ms) h =
      All-append (λ f. has_suffix f meta_suffix ≡ false) m.files (files_of ms) h.0
        (DataOnly-files_of ms h.1)

  -- On a backend that is a map: if no deleted backup lists a metadata file, GetBackup finds every
  -- backup after Cleanup as before, also one whose data Cleanup deleted.
  pub get_backup-cleanup :
      (sorter : Sorter stamp) (p : Policy) (now : Time) (s : b.State) (ms : List BackupMetadata)
      → Good s
      → list_backups b k s ≡ ok ms
      → All
          (λ m. AllNames names m.files × DataOnly m.files)
          (determine_backups_to_delete sorter p now ms)
      → (id : Str) → names (id ++ meta_suffix) ≡ true
      → get_backup b k id (cleanup b k sorter p now s).1 ≡ get_backup b k id s
  unfolding get_backup cleanup
  get_backup-cleanup sorter p now s ms g l h id nid =
      let gone = determine_backups_to_delete sorter p now ms in
      let q = id ++ meta_suffix in
      let s' = (delete_backups b k gone s).1 in
      let ends : (cleanup b k sorter p now s).1 ≡ s' = rw (l, cleanup) in
      let keeps =
        not-has_str_of_DataOnly (files_of gone) q (has_suffix-append id meta_suffix)
          (DataOnly-files_of gone (All-map _ _ (λ m e. e.1) gone h)) in
      let moved = view-delete_backups gone s q g (All-map _ _ (λ m e. e.0) gone h) nid in
      let same : view s' q ≡ view s q = rw keeps at moved in
      let reads : b.read q s' ≡ b.read q s =
        rw (law.read_view q s' (delete_backups-Good gone s g), law.read_view q s g, same) in
      rw ends (rw (reads, get_backup))

-- A cleanup that cannot list the backups deletes nothing.
pub cleanup_unlisted :
    (b : Backend) (k : Codec) (sorter : Sorter stamp) (p : Policy) (now : Time) (s : b.State)
    (e : StorageError)
    → list_backups b k s ≡ err e
    → (cleanup b k sorter p now s).1 ≡ s
unfolding cleanup
cleanup_unlisted b k sorter p now s e broken = rw (broken, cleanup)
