-- ===== src/Tests/Data.antt =====
-- Data that the examples share: times, backups, a configuration, a disk and the tools around it.
use datasaver.Base.{
  ℕ, ◌*◌, Bool, true, false, Str, bytes, List, [], ◌∷◌, ◌++◌, none, ok, str_eq, trim_prefix,
  has_prefix, refl,
}
use datasaver.Base.Int.{pos}
use datasaver.Base.Sorting.Insertion.{insertion}
use datasaver.Clock.{Time}
use datasaver.Config.{Config, default_config}
use datasaver.Metadata.{BackupMetadata}
use datasaver.Rotation.Policy.{Policy}
use datasaver.Storage.{Backend}
use datasaver.Storage.Disk.{Disk}
use datasaver.Storage.Local.{FilePaths, modified_at, local_storage}
use datasaver.Storage.Local.Laws.{IsSound, JoinsApart, content_at, local_storage-IsMap}
use datasaver.Storage.Laws.{IsMap}
use datasaver.Validator.{Tools}
use datasaver.Engine.{Codec}

-- Midnight behind `n` days.
abbrev pub day_time : ℕ → Time
day_time n = record { nanos = n * 86400000000000; ahead = 0; behind = 0 }

abbrev pub backup_of : Str → ℕ → List Str → BackupMetadata
backup_of id n files = record {
  id = id;
  timestamp = day_time n;
  type = bytes "daily";
  database = record { name = bytes "app"; host = bytes "db"; version = bytes "16" };
  backup = record {
    method = bytes "postgres";
    format = bytes "custom";
    compression = bytes "none";
    size_bytes = pos 2;
    compressed_size = pos 2;
    duration = pos 0;
    checksum = bytes "sum";
  };
  files = files;
  retention = record { keep_until = day_time n; policy = bytes "daily" };
}

-- Backups of three consecutive days, and a policy that keeps two daily ones.
abbrev pub three : List BackupMetadata
three =
    backup_of (bytes "a") 8 (bytes "a.dump" ∷ [])
    ∷ backup_of (bytes "b") 9 (bytes "b.dump" ∷ [])
    ∷ backup_of (bytes "c") 10 (bytes "c.dump" ∷ [])
    ∷ []

abbrev pub two_daily : Policy
two_daily = record {
  keep_daily = pos 2;
  keep_weekly = pos 0;
  keep_monthly = pos 0;
  max_age_days = pos 30;
}

abbrev pub named_config : Config
named_config = record default_config {
  database = record default_config.database { name = bytes "app" };
  compression = bytes "none";
}

-- Join for a base path and a relative one.
abbrev pub slashes : FilePaths
slashes = record {
  join = λ base p. base ++ 47 ∷ p;
  dir = λ p. p;
  rel = λ base p. ok (trim_prefix p (base ++ 47 ∷ []));
  under = λ base p. has_prefix p (base ++ 47 ∷ []);
}

abbrev pub base : Str
base = bytes "d"

abbrev pub local : Backend
local = local_storage slashes (insertion modified_at) base

abbrev pub all_names : Str → Bool
all_names p = true

pub joins_apart : JoinsApart slashes base all_names
unfolding str_eq
joins_apart p q _ _ = refl

pub local-IsMap : IsMap local IsSound all_names (content_at slashes (insertion modified_at) base)
local-IsMap = local_storage-IsMap slashes (insertion modified_at) base all_names joins_apart

-- A disk without faults that holds one backup with its metadata.
abbrev pub disk : Disk
disk = record {
  files =
      (bytes "d/a.dump", record { content = bytes "ok"; modified = day_time 8 })
      ∷ (bytes "d/a.meta.json", record { content = bytes "a"; modified = day_time 8 })
      ∷ [];
  clock = day_time 11;
  fault = λ c p. none;
  copied = λ p. 0;
  has_dir = λ p. true;
}

pub disk-IsSound : IsSound disk
disk-IsSound c p = refl

-- Every file has the same checksum, and every program succeeds.
abbrev pub tools : Tools
tools = record {
  create_temp = none;
  storage_text = λ e. e.op;
  checksum = λ text. ok (bytes "sum");
  gunzip = ok;
  has_sqlite_cli = false;
  sqlite_import = λ text. ok tt;
  sqlite_check = λ text. ok (bytes "ok");
  sqlite_open = ok tt;
  sqlite_exec = λ text. ok tt;
  sqlite_query = λ text. ok (bytes "ok");
  pg_list = λ text. ok text;
  trim_space = λ text. text;
}

abbrev pub stored : BackupMetadata
stored = backup_of (bytes "a") 8 (bytes "a.dump" ∷ [])

-- Any text is parsed as the metadata of this backup.
abbrev pub codec : Codec
codec = record { to_json = λ m. ok m.id; parse = λ text. ok stored; storage_text = λ e. e.op }
