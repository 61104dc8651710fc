-- ===== src/Tests/Config.antt =====
-- Examples of the theorems on the configuration and the driver.
use datasaver.Base.{
  true, bytes, [], none, ok, ◌≡◌, refl, ◌↔◌, to_lower, str_eq, has_str, if◌then◌else◌,
}
use datasaver.Config.{Config, default_config, validate}
use datasaver.Config.Check.{is_valid, validate_iff}
use datasaver.Config.Env.{Env, load, load_from_env, env_str, env_int, env_flag}
use datasaver.Driver.{new_driver}
use datasaver.Driver.Accepted.{is_ok, new_driver_iff}
use datasaver.Engine.Run.{driver_config}
use datasaver.Tests.Data.{named_config}

validate_iff_example : (validate named_config ≡ ok tt) ↔ (is_valid named_config ≡ true)
validate_iff_example = validate_iff named_config

accepted : validate named_config ≡ ok tt
unfolding validate has_str to_lower
accepted = refl

-- A database of the name "app", and nothing else in the environment.
abbrev env : Env
env k = if str_eq k (bytes "DATASAVER_DB_NAME") then bytes "app" else []

abbrev loaded : Config
loaded = record default_config { database = record default_config.database { name = bytes "app" } }

loads : load (λ path. none) (λ text. text) (λ text c. none) env [] ≡ ok loaded
unfolding load load_from_env validate has_str to_lower env_str env_int env_flag
loads = refl

-- The type "Postgres", which the checks accept.
abbrev capital_config : Config
capital_config = record named_config {
  database = record named_config.database { type = bytes "Postgres" };
}

capital_accepted : validate capital_config ≡ ok tt
unfolding validate has_str to_lower
capital_accepted = refl

new_driver_iff_example :
    (is_ok (new_driver (driver_config capital_config)) ≡ true)
    ↔ (to_lower (bytes "Postgres") ≡ bytes "Postgres")
new_driver_iff_example = new_driver_iff capital_config capital_accepted
