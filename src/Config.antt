-- ===== src/Config.antt =====
-- internal/config/config.go: the configuration, its defaults, its environment and its checks.
pub mod Env
pub mod Check
use datasaver.Base.{
  Bool, true, false, not, ◌&&◌, ◌||◌, Str, bytes, List, [], ◌∷◌, ◌++◌, if◌then◌else◌, str_eq,
  to_lower, has_str, Result, ok, err, ◌>>=◌, map_err,
}
use datasaver.Base.Decimal.{decimal}
use datasaver.Base.Int.{ℤ, pos, ◌*ℤ◌, wrap}

pub record BackupConfig : Type 0 where
  pub verify_after_backup : Bool
  pub verify_checksum : Bool

pub record DatabaseConfig : Type 0 where
  pub type : Str
  pub host : Str
  pub port : ℤ
  pub name : Str
  pub user : Str
  pub password : Str
  pub url : Str
  pub path : Str

pub record S3Config : Type 0 where
  pub bucket : Str
  pub endpoint : Str
  pub region : Str
  pub access_key : Str
  pub secret_key : Str
  pub use_ssl : Bool

pub record StorageConfig : Type 0 where
  pub backend : Str
  pub path : Str
  pub s3 : S3Config

pub record RetentionConfig : Type 0 where
  pub daily : ℤ
  pub weekly : ℤ
  pub monthly : ℤ
  pub max_age_days : ℤ

pub record MonitoringConfig : Type 0 where
  pub metrics_port : ℤ
  pub webhook_url : Str
  pub alert_after_hours : ℤ
  pub health_port : ℤ

pub record Config : Type 0 where
  pub database : DatabaseConfig
  pub schedule : Str
  pub storage : StorageConfig
  pub retention : RetentionConfig
  pub compression : Str
  pub monitoring : MonitoringConfig
  pub backup : BackupConfig

-- The literal at the top of Load.
abbrev pub default_config : Config
default_config = record {
  database = record {
    type = bytes "postgres";
    host = bytes "localhost";
    port = pos 5432;
    name = [];
    user = [];
    password = [];
    url = [];
    path = [];
  };
  schedule = bytes "0 2 * * *";
  storage = record {
    backend = bytes "local";
    path = bytes "/backups";
    s3 = record {
      bucket = [];
      endpoint = [];
      region = [];
      access_key = [];
      secret_key = [];
      use_ssl = false;
    };
  };
  retention = record { daily = pos 7; weekly = pos 4; monthly = pos 6; max_age_days = pos 90 };
  compression = bytes "gzip";
  monitoring = record {
    metrics_port = pos 9090;
    webhook_url = [];
    alert_after_hours = pos 26;
    health_port = pos 8080;
  };
  backup = record { verify_after_backup = false; verify_checksum = false };
}

abbrev pub is_empty : Str → Bool
is_empty [] = true
is_empty (c ∷ s) = false

pub data ConfigError : Type 0 where
  read_failed parse_failed : ConfigError
  database_name_or_url_required database_path_required : ConfigError
  unsupported_database_type : Str → ConfigError
  unknown_backend bucket_required keys_required unknown_compression : ConfigError

abbrev pub postgres_types : List Str
postgres_types = bytes "postgres" ∷ bytes "postgresql" ∷ bytes "pg" ∷ []

abbrev pub sqlite_types : List Str
sqlite_types = bytes "sqlite" ∷ bytes "sqlite3" ∷ []

-- strings.ToLower of the type, where the empty type is postgres.
unfoldable pub database_type : Config → Str
database_type c = let t = to_lower c.database.type in if is_empty t then bytes "postgres" else t

abbrev pub check : Bool → ConfigError → Result ConfigError (Unit {0})
check true e = err e
check false e = ok tt

unfoldable pub validate_database : Config → Result ConfigError (Unit {0})
unfolding database_type
validate_database c =
    if has_str (database_type c) postgres_types
    then check (is_empty c.database.url && is_empty c.database.name) database_name_or_url_required
    else if has_str (database_type c) sqlite_types
    then check (is_empty c.database.path && is_empty c.database.name) database_path_required
    else err (unsupported_database_type c.database.type)

unfoldable pub validate_s3 : Config → Result ConfigError (Unit {0})
validate_s3 c =
    if str_eq c.storage.backend (bytes "s3")
    then (check (is_empty c.storage.s3.bucket) bucket_required >>= λ _.
        check (is_empty c.storage.s3.access_key || is_empty c.storage.s3.secret_key) keys_required)
    else ok tt

unfoldable pub validate : Config → Result ConfigError (Unit {0})
unfolding validate_database validate_s3
validate c = validate_database c >>= λ _.
    check
      (not (str_eq c.storage.backend (bytes "local"))
        && not (str_eq c.storage.backend (bytes "s3")))
      unknown_backend
    >>= λ _. validate_s3 c >>= λ _.
        check
          (not (str_eq c.compression (bytes "gzip"))
            && not (str_eq c.compression (bytes "zstd"))
            && not (str_eq c.compression (bytes "none")))
          unknown_compression

-- time.Duration(AlertAfterHours) * time.Hour
unfoldable pub alert_duration : Config → ℤ
alert_duration c = wrap (c.monitoring.alert_after_hours *ℤ pos 3600000000000)

-- ConnectionString of a DatabaseConfig: the password stands in it as it is.
unfoldable pub connection_string : DatabaseConfig → Str
connection_string d =
    if not (is_empty d.url)
    then d.url
    else bytes "postgres://"
      ++ (d.user
          ++ (bytes ":"
              ++ (d.password
                  ++ (bytes "@"
                      ++ (d.host
                          ++ (bytes ":"
                              ++ (decimal d.port
                                  ++ (bytes "/" ++ (d.name ++ bytes "?sslmode=disable")))))))))

unfoldable pub is_sqlite : Config → Bool
is_sqlite c = has_str (to_lower c.database.type) sqlite_types

unfoldable pub is_postgres : Config → Bool
is_postgres c =
    is_empty (to_lower c.database.type) || has_str (to_lower c.database.type) postgres_types
