-- ===== src/Engine/Listing.antt =====
-- ListBackups and GetBackup of internal/backup/engine.go agree.
use mathlib.Core.List.{Mem, Mem-prop, Memᴰ}
use mathlib.Core.Logic.{∥∥₁_elim}
use datasaver.Base.{
  Str, List, [], ◌∷◌, ◌++◌, none, some, ok, err, ◌≡◌, refl, arith, has_suffix-append, Option-cases,
  inl, inr,
}
use datasaver.Metadata.{BackupMetadata}
use datasaver.Storage.{Backend, FileInfo}
use datasaver.Validator.{meta_suffix}
use datasaver.Engine.{Codec, listed, list_loop, list_backups, get_backup}

module _ (b : Backend) (k : Codec) (s : b.State) where
  listed-get_backup :
      (id : Str)
      → listed b k s (id ++ meta_suffix)
        ≡ elim (get_backup b k id s) [ err e ↦ none | ok m ↦ some m ]
  unfolding listed get_backup
  listed-get_backup id = rw (has_suffix-append id meta_suffix) (ground arith)

  mem-list_loop :
      (fs : List FileInfo) (f : FileInfo) (m : BackupMetadata)
      → Memᴰ f fs
      → listed b k s f.path ≡ some m
      → Memᴰ m (list_loop b k s fs)
  unfolding list_loop
  mem-list_loop [] f m at h = elim at [ ]
  mem-list_loop (x ∷ fs) f m (Memᴰ.head e) h =
      let here : listed b k s x.path ≡ some m = rw e at h in rw (here, list_loop) (Memᴰ.head refl)
  mem-list_loop (x ∷ fs) f m (Memᴰ.tail at) h = elim (Option-cases (listed b k s x.path)) [
    | inl skipped ↦ rw (skipped, list_loop) (mem-list_loop fs f m at h)
    | inr (n, kept) ↦ rw (kept, list_loop) (Memᴰ.tail (mem-list_loop fs f m at h))
  ]

  -- A backup that GetBackup finds under a listed file is among the backups of ListBackups.
  pub get_backup-mem-list_backups :
      (id : Str) (m : BackupMetadata) (files : List FileInfo) (f : FileInfo)
      → b.list [] s ≡ ok files
      → Memᴰ f files
      → f.path ≡ id ++ meta_suffix
      → get_backup b k id s ≡ ok m
      → (ms : List BackupMetadata) × (list_backups b k s ≡ ok ms) × Memᴰ m ms
  unfolding list_backups
  get_backup-mem-list_backups id m files f l at named got =
      let found : listed b k s f.path ≡ some m = rw (named, listed-get_backup id, got) refl in
      (list_loop b k s files, rw (l, list_backups), mem-list_loop files f m at found)

  -- The same where the place in the list is forgotten.
  pub get_backup-Mem-list_backups :
      (id : Str) (m : BackupMetadata) (files : List FileInfo) (f : FileInfo)
      → b.list [] s ≡ ok files
      → Mem f files
      → f.path ≡ id ++ meta_suffix
      → get_backup b k id s ≡ ok m
      → (ms : List BackupMetadata) × (list_backups b k s ≡ ok ms) × Mem m ms
  unfolding list_backups
  get_backup-Mem-list_backups id m files f l at named got =
      let found : listed b k s f.path ≡ some m = rw (named, listed-get_backup id, got) refl in
      (
        list_loop b k s files,
        rw (l, list_backups),
        ∥∥₁_elim at Mem-prop (λ here. ∣ mem-list_loop files f m here found ∣₁),
      )
