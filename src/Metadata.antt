-- ===== src/Metadata.antt =====
-- pkg/postgres/metadata.go: the metadata of a backup and the operations that fill it in.
use datasaver.Base.{◌/◌, ◌%◌, Str, bytes, List, [], ◌∷◌, ◌++◌}
use datasaver.Base.Int.{ℤ, pos}
use datasaver.Clock.{Time, zero_time, local_seconds, local_days}
use datasaver.Clock.Civil.{date_of}
use datasaver.Clock.Format.{two_digits}

pub record DatabaseMetadata : Type 0 where
  pub name : Str
  pub host : Str
  pub version : Str

-- DurationSeconds is kept as the nanoseconds of the duration that it is the quotient of.
pub record BackupInfo : Type 0 where
  pub method : Str
  pub format : Str
  pub compression : Str
  pub size_bytes : ℤ
  pub compressed_size : ℤ
  pub duration : ℤ
  pub checksum : Str

pub record RetentionInfo : Type 0 where
  pub keep_until : Time
  pub policy : Str

pub record BackupMetadata : Type 0 where
  pub id : Str
  pub timestamp : Time
  pub type : Str
  pub database : DatabaseMetadata
  pub backup : BackupInfo
  pub files : List Str
  pub retention : RetentionInfo

-- `now` is the value of time.Now().UTC().
unfoldable pub new_backup_metadata : Time → Str → Str → Str → Str → BackupMetadata
new_backup_metadata now id db_name db_host db_version = record {
  id = id;
  timestamp = now;
  type = bytes "daily";
  database = record { name = db_name; host = db_host; version = db_version };
  backup = record {
    method = bytes "pg_dump";
    format = bytes "custom";
    compression = bytes "gzip";
    size_bytes = pos 0;
    compressed_size = pos 0;
    duration = pos 0;
    checksum = [];
  };
  files = [];
  retention = record { keep_until = zero_time; policy = [] };
}

unfoldable pub set_backup_info : ℤ → ℤ → ℤ → Str → BackupMetadata → BackupMetadata
set_backup_info size compressed duration checksum m = record m {
  backup = record m.backup {
    size_bytes = size;
    compressed_size = compressed;
    duration = duration;
    checksum = checksum;
  };
}

unfoldable pub set_retention : Time → Str → BackupMetadata → BackupMetadata
set_retention keep_until policy m = record m {
  retention = record { keep_until = keep_until; policy = policy };
}

unfoldable pub add_file : Str → BackupMetadata → BackupMetadata
add_file name m = record m { files = m.files ++ name ∷ [] }

-- Format("20060102_150405"), up to the year 9999.
unfoldable pub time_name : Time → Str
time_name t =
    let d = date_of (local_days t) in
    let s = local_seconds t % 86400 in
    two_digits (d.year / 100)
    ++ (two_digits (d.year % 100)
        ++ (two_digits d.month
            ++ (two_digits d.day
                ++ (bytes "_"
                    ++ (two_digits (s / 3600)
                        ++ (two_digits (s / 60 % 60) ++ two_digits (s % 60)))))))

unfoldable pub generate_backup_id : Time → Str
unfolding time_name
generate_backup_id t = bytes "backup_" ++ time_name t
