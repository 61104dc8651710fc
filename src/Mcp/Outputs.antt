-- ===== src/Mcp/Outputs.antt =====
-- The outputs of the tools in internal/mcp/tools/backup.go.
use datasaver.Base.{ℕ, Bool, Str, List}
use datasaver.Base.Int.{ℤ}

pub record BackupNowOutput : Type 0 where
  pub backup_id : Str
  pub timestamp : Str
  pub size_bytes : ℤ
  pub compressed_size : ℤ
  pub duration_ms : ℤ
  pub checksum : Str

pub record BackupItem : Type 0 where
  pub id : Str
  pub timestamp : Str
  pub database : Str
  pub size_bytes : ℤ
  pub compressed_size : ℤ
  pub type : Str
  pub checksum : Str

pub record ListBackupsOutput : Type 0 where
  pub count : ℕ
  pub backups : List BackupItem

-- The values of the three maps, which have other types in Go. The duration is that of the metadata.
pub data Value : Type 0 where
  text : Str → Value
  number : ℤ → Value
  seconds : ℤ → Value

pub record GetBackupOutput : Type 0 where
  pub id : Str
  pub timestamp : Str
  pub type : Str
  pub database : List (Str × Value)
  pub backup : List (Str × Value)
  pub files : List Str
  pub retention : List (Str × Value)

pub record RestoreBackupOutput : Type 0 where
  pub backup_id : Str
  pub target_db : Str
  pub success : Bool
  pub dry_run : Bool

-- An empty text is left out of the JSON.
pub record BackupStatusOutput : Type 0 where
  pub status : Str
  pub total_backups : ℕ
  pub storage_bytes : ℤ
  pub last_backup : Str
  pub last_run : Str
  pub last_error : Str

pub record CleanupOutput : Type 0 where
  pub deleted_count : ℕ
  pub message : Str

pub record VerifyBackupOutput : Type 0 where
  pub backup_id : Str
  pub valid : Bool
  pub file_exists : Bool
  pub size_match : Bool
  pub checksum_ok : Bool
  pub errors : List Str
