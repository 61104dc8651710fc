-- ===== src/Commands/Setup.antt =====
-- What comes before every command of cmd/datasaver/main.go: the configuration, the storage and the
-- notifier.
use datasaver.Base.{
  [], Bool-cases, str_eq_iff, true, false, ◌||◌, Str, bytes, Option, none, some, if◌then◌else◌,
  str_eq, Result, ok, err, ◌≡◌, ◌≢◌, ◌⊎◌, arith, inl, inr, refl,
}
use datasaver.Config.{Config, ConfigError, is_empty}
use datasaver.Config.Check.{is_valid, validate_iff}
use datasaver.Config.Env.{Env, load, load_valid}
use datasaver.Notify.{Notifier, new_notifier}
use datasaver.Storage.{StorageError, S3Config, create}

-- "failed to load config: …" and "failed to create storage backend: …"
pub data SetupError : Type 0 where
  load_failed : ConfigError → SetupError
  create_failed : StorageError → SetupError

pub record Globals (B : Type 0) : Type 0 where
  pub cfg : Config
  pub store : B
  pub notifier : Option Notifier

unfoldable pub s3_config : Config → S3Config
s3_config c = record {
  bucket = c.storage.s3.bucket;
  endpoint = c.storage.s3.endpoint;
  region = c.storage.s3.region;
  access_key = c.storage.s3.access_key;
  secret_key = c.storage.s3.secret_key;
  use_ssl = c.storage.s3.use_ssl;
}

abbrev pub globals : {B : Type 0} → Config → Result StorageError B → Result SetupError (Globals B)
globals c (err e) = err (create_failed e)
globals c (ok store) =
    ok (record { cfg = c; store = store; notifier = new_notifier c.monitoring.webhook_url })

not_empty : (s : Str) → is_empty s ≡ false → s ≢ []
not_empty s h e = ground (arith, h, e)

is_valid-s3 :
    (c : Config)
    → is_valid c ≡ true
    → str_eq c.storage.backend (bytes "local") ≡ false
    → (str_eq c.storage.backend (bytes "s3") ≡ true)
      × (is_empty c.storage.s3.bucket ≡ false)
      × (is_empty c.storage.s3.access_key ≡ false)
      × (is_empty c.storage.s3.secret_key ≡ false)
is_valid-s3 c h other = ground (arith, h, other)

module _ (read_file : Str → Option Str) (expand_env : Str → Str)
    (unmarshal : Str → Config → Option Config) {B : Type 0}
    (new_local : Str → Result StorageError B) (new_s3 : S3Config → Result StorageError B) where
  unfoldable pub set_up : Env → Str → Result SetupError (Globals B)
  unfolding s3_config
  set_up env cfg_file = elim (load read_file expand_env unmarshal env cfg_file) [
    | err e ↦ err (load_failed e)
    | ok c ↦
        let s3 = if str_eq c.storage.backend (bytes "s3") then some (s3_config c) else none in
        globals c (create new_local new_s3 c.storage.backend c.storage.path s3)
  ]

  -- PersistentPreRunE: two commands need no set-up.
  unfoldable pub pre_run : Str → Env → Str → Result SetupError (Option (Globals B))
  unfolding set_up
  pre_run name env cfg_file =
      if str_eq name (bytes "help") || str_eq name (bytes "version")
      then ok none
      else elim (set_up env cfg_file) [ err e ↦ err e | ok g ↦ ok (some g) ]

  -- The storage of a configuration that was loaded comes from one of the two constructors. S3 is
  -- given a bucket and both keys. The factory gives no error of its own.
  pub set_up_create :
      (env : Env) (cfg_file : Str) (c : Config)
      → load read_file expand_env unmarshal env cfg_file ≡ ok c
      → ((c.storage.backend ≡ bytes "local")
          × (set_up env cfg_file ≡ globals c (new_local c.storage.path)))
        ⊎ ((c.storage.backend ≡ bytes "s3")
            × ((s3_config c).bucket ≢ [])
            × ((s3_config c).access_key ≢ [])
            × ((s3_config c).secret_key ≢ [])
            × (set_up env cfg_file ≡ globals c (new_s3 (s3_config c))))
  unfolding set_up create s3_config
  set_up_create env cfg_file c loaded =
      let valid =
        (validate_iff c).0 (load_valid read_file expand_env unmarshal env cfg_file c loaded).0 in
      elim (Bool-cases (str_eq c.storage.backend (bytes "local"))) [
        | inl local ↦ inl (
          (str_eq_iff c.storage.backend (bytes "local")).0 local,
          rw (set_up, loaded) (rw (create, local) refl),
        )
        | inr other ↦
            let (s3, bucket, access, secret) = is_valid-s3 c valid other in
            inr (
              (str_eq_iff c.storage.backend (bytes "s3")).0 s3,
              not_empty c.storage.s3.bucket bucket,
              not_empty c.storage.s3.access_key access,
              not_empty c.storage.s3.secret_key secret,
              rw (set_up, loaded) (rw (create, other, s3) refl),
            )
      ]
