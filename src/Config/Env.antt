-- ===== src/Config/Env.antt =====
-- loadFromFile, loadFromEnv and Load of internal/config/config.go. The environment gives the empty
-- string for a variable that is not set, as os.Getenv does.
use datasaver.Base.{
  Bool, Str, bytes, String, Option, none, some, ◌≡◌, >>=-Through, arith, subst, if◌then◌else◌,
  str_eq, to_lower, Result, ok, err, ◌>>=◌,
}
use datasaver.Base.Int.{ℤ}
use datasaver.Base.Atoi.{atoi}
use datasaver.Config.{
  Config, ConfigError, read_failed, parse_failed, default_config, is_empty, validate,
}

abbrev pub Env : Type 0
Env = Str → Str

-- The three forms of an override: a string, a number that parses, a flag.
unfoldable pub env_str : Env → String → Str → Str
env_str env k old = let v = env (bytes k) in if is_empty v then old else v

unfoldable pub env_int : Env → String → ℤ → ℤ
env_int env k old =
    let v = env (bytes k) in if is_empty v then old else elim (atoi v) [ none ↦ old | some n ↦ n ]

unfoldable pub env_flag : Env → String → Bool → Bool
env_flag env k old =
    let v = env (bytes k) in if is_empty v then old else str_eq (to_lower v) (bytes "true")

module _ (env : Env) (k : String) where
  env_str_idem : (old : Str) → env_str env k (env_str env k old) ≡ env_str env k old
  unfolding env_str
  env_str_idem old = ground arith

  env_int_idem : (old : ℤ) → env_int env k (env_int env k old) ≡ env_int env k old
  unfolding env_int
  env_int_idem old = ground arith

  env_flag_idem : (old : Bool) → env_flag env k (env_flag env k old) ≡ env_flag env k old
  unfolding env_flag
  env_flag_idem old = ground arith

module _ (env : Env) where
  unfoldable pub database_from_env : Config → Config
  database_from_env c = record c {
    database = record {
      type = env_str env "DATASAVER_DB_TYPE" c.database.type;
      url = env_str env "DATASAVER_DATABASE_URL" c.database.url;
      host = env_str env "DATASAVER_DB_HOST" c.database.host;
      path = env_str env "DATASAVER_DB_PATH" c.database.path;
      port = env_int env "DATASAVER_DB_PORT" c.database.port;
      name = env_str env "DATASAVER_DB_NAME" c.database.name;
      user = env_str env "DATASAVER_DB_USER" c.database.user;
      password = env_str env "DATASAVER_DB_PASSWORD" c.database.password;
    };
    schedule = env_str env "DATASAVER_SCHEDULE" c.schedule;
  }

  unfoldable pub storage_from_env : Config → Config
  storage_from_env c = record c {
    storage = record {
      backend = env_str env "DATASAVER_STORAGE_BACKEND" c.storage.backend;
      path = env_str env "DATASAVER_STORAGE_PATH" c.storage.path;
      s3 = record {
        bucket = env_str env "DATASAVER_S3_BUCKET" c.storage.s3.bucket;
        endpoint = env_str env "DATASAVER_S3_ENDPOINT" c.storage.s3.endpoint;
        region = env_str env "DATASAVER_S3_REGION" c.storage.s3.region;
        access_key = env_str env "DATASAVER_S3_ACCESS_KEY" c.storage.s3.access_key;
        secret_key = env_str env "DATASAVER_S3_SECRET_KEY" c.storage.s3.secret_key;
        use_ssl = env_flag env "DATASAVER_S3_USE_SSL" c.storage.s3.use_ssl;
      };
    };
  }

  unfoldable pub retention_from_env : Config → Config
  retention_from_env c = record c {
    retention = record {
      daily = env_int env "DATASAVER_KEEP_DAILY" c.retention.daily;
      weekly = env_int env "DATASAVER_KEEP_WEEKLY" c.retention.weekly;
      monthly = env_int env "DATASAVER_KEEP_MONTHLY" c.retention.monthly;
      max_age_days = env_int env "DATASAVER_MAX_AGE_DAYS" c.retention.max_age_days;
    };
    compression = env_str env "DATASAVER_COMPRESSION" c.compression;
  }

  unfoldable pub monitoring_from_env : Config → Config
  monitoring_from_env c = record c {
    monitoring = record {
      metrics_port = env_int env "DATASAVER_METRICS_PORT" c.monitoring.metrics_port;
      health_port = env_int env "DATASAVER_HEALTH_PORT" c.monitoring.health_port;
      webhook_url = env_str env "DATASAVER_WEBHOOK_URL" c.monitoring.webhook_url;
      alert_after_hours = env_int env "DATASAVER_ALERT_AFTER_HOURS" c.monitoring.alert_after_hours;
    };
    backup = record {
      verify_after_backup = env_flag env "DATASAVER_VERIFY_BACKUP" c.backup.verify_after_backup;
      verify_checksum = env_flag env "DATASAVER_VERIFY_CHECKSUM" c.backup.verify_checksum;
    };
  }

  unfoldable pub load_from_env : Config → Config
  unfolding database_from_env storage_from_env retention_from_env monitoring_from_env
  load_from_env c =
      monitoring_from_env (retention_from_env (storage_from_env (database_from_env c)))

  -- Applying the environment again changes nothing.
  pub load_from_env_idem : (c : Config) → load_from_env (load_from_env c) ≡ load_from_env c
  unfolding load_from_env
  load_from_env_idem c = simp (env_str_idem, env_int_idem, env_flag_idem)

-- `read_file` is os.ReadFile, `expand_env` is os.ExpandEnv, and `unmarshal` is yaml.Unmarshal onto
-- a configuration.
module _ (read_file : Str → Option Str) (expand_env : Str → Str)
    (unmarshal : Str → Config → Option Config) where
  unfoldable pub load_from_file : Str → Config → Result ConfigError Config
  load_from_file path c = elim (read_file path) [
    | none ↦ err read_failed
    | some text ↦ elim (unmarshal (expand_env text) c) [ none ↦ err parse_failed | some c' ↦ ok c' ]
  ]

  -- The defaults, under the file if one is named.
  unfoldable pub base_config : Str → Result ConfigError Config
  unfolding load_from_file
  base_config config_path =
      if is_empty config_path then ok default_config else load_from_file config_path default_config

  unfoldable pub finish : Env → Config → Result ConfigError Config
  unfolding load_from_env
  finish env c = let c' = load_from_env env c in validate c' >>= λ _. ok c'

  unfoldable pub load : Env → Str → Result ConfigError Config
  unfolding base_config finish
  load env config_path = base_config config_path >>= finish env

  -- A configuration that Load returns passes the checks and agrees with the environment.
  pub load_valid :
      (env : Env) (config_path : Str) (c : Config)
      → load env config_path ≡ ok c
      → (validate c ≡ ok tt) × (load_from_env env c ≡ c)
  unfolding load
  load_valid env config_path c e =
      let based = >>=-Through (base_config config_path) (finish env) c e in
      let c1 = load_from_env env based.value in
      let passed = >>=-Through (validate c1) (λ _. ok c1) c based.rest_ok in
      let eq : c1 ≡ c = cc passed.rest_ok in
      subst (λ d. (validate d ≡ ok tt) × (load_from_env env d ≡ d)) eq
        (passed.first_ok, load_from_env_idem env based.value)
