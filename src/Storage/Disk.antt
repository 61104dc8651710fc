-- ===== src/Storage/Disk.antt =====
-- The calls of package os that internal/storage/local.go makes, on a disk whose files are listed by
-- their paths. Each call fails where the disk says so.
use datasaver.Base.{
  ℕ, Bool, Str, List, [], ◌∷◌, Option, none, some, if◌then◌else◌, str_eq, str_eq_iff, Result, ok,
  err, ◌≡◌, refl, arith,
}
use datasaver.Clock.{Time}

pub record File : Type 0 where
  pub content : Str
  pub modified : Time

pub data Call : Type 0 where
  mkdir_all create copy open_file remove stat walk : Call

-- A fault of a call at a path, and how many bytes a copy has written when it fails. A
-- directory may be missing.
pub record Disk : Type 0 where
  pub files : List (Str × File)
  pub clock : Time
  pub fault : Call → Str → Option Str
  pub copied : Str → ℕ
  pub has_dir : Str → Bool

-- os.IsNotExist tells the first from the others.
pub data OsError : Type 0 where
  not_exist : OsError
  other : Str → OsError

unfoldable pub lookup : Str → List (Str × File) → Option File
lookup k [] = none
lookup k ((j, f) ∷ fs) = if str_eq j k then some f else lookup k fs

unfoldable pub insert : Str → File → List (Str × File) → List (Str × File)
insert k f [] = (k, f) ∷ []
insert k f ((j, g) ∷ fs) = if str_eq j k then (k, f) ∷ fs else (j, g) ∷ insert k f fs

unfoldable pub erase : Str → List (Str × File) → List (Str × File)
erase k [] = []
erase k ((j, g) ∷ fs) = let rest = erase k fs in if str_eq j k then rest else (j, g) ∷ rest

pub lookup-insert :
    (j k : Str) (f : File) (fs : List (Str × File))
    → lookup j (insert k f fs) ≡ (if str_eq k j then some f else lookup j fs)
unfolding lookup insert
lookup-insert j k f [] = refl
lookup-insert j k f ((i, g) ∷ fs) =
    ground (arith, str_eq_iff k j, str_eq_iff i k, str_eq_iff i j, lookup-insert j k f fs)

pub lookup-erase :
    (j k : Str) (fs : List (Str × File))
    → lookup j (erase k fs) ≡ (if str_eq k j then none else lookup j fs)
unfolding lookup erase
lookup-erase j k [] = ground arith
lookup-erase j k ((i, g) ∷ fs) =
    ground (arith, str_eq_iff k j, str_eq_iff i k, str_eq_iff i j, lookup-erase j k fs)

abbrev pub put : Str → Str → Disk → Disk
put p s d = record d { files = insert p (record { content = s; modified = d.clock }) d.files }

-- The end of a call that finds the file first.
unfoldable pub found : Call → Str → Disk → Result OsError File
unfolding lookup
found c p d = elim (d.fault c p) [
  | some e ↦ err (other e)
  | none ↦ elim (lookup p d.files) [ none ↦ err not_exist | some f ↦ ok f ]
]
