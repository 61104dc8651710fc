-- ===== src/Driver.antt =====
-- pkg/database/factory.go and the parts of postgres.go and sqlite.go that run no other program.
pub mod Accepted
pub mod Programs
pub mod Postgres
pub mod Sqlite
use datasaver.Base.{
  ℕ, zero, suc, ◌+◌, ◌/◌, ◌%◌, Bool, true, false, Str, bytes, List, [], ◌∷◌, ◌++◌, Option, none,
  some, if◌then◌else◌, str_eq, str_eq_iff, has_str, Result, ok, err, ◌==◌, ltb, ◌≡◌, ◌≢◌, refl,
  to_lower,
}
use datasaver.Base.Int.{ℤ, pos, negsuc}

pub record DriverConfig : Type 0 where
  pub type : Str
  pub host : Str
  pub port : ℤ
  pub name : Str
  pub user : Str
  pub password : Str
  pub url : Str
  pub path : Str

-- A PostgresDriver holds its configuration, and a SQLiteDriver the path of its file.
pub data Driver : Type 0 where
  postgres : DriverConfig → Driver
  sqlite : Str → Driver

unfoldable pub new_postgres_driver : DriverConfig → Result Str Driver
new_postgres_driver cfg = ok (postgres cfg)

abbrev pub first_nonempty : Str → Str → Str
first_nonempty [] t = t
first_nonempty (c ∷ s) t = c ∷ s

unfoldable pub new_sqlite_driver : DriverConfig → Result Str Driver
new_sqlite_driver cfg =
    let path = first_nonempty cfg.path cfg.name in
    if str_eq path [] then err (bytes "sqlite database path is required") else ok (sqlite path)

-- The switch compares the type as it is written, capitals included.
unfoldable pub new_driver : DriverConfig → Result Str Driver
unfolding new_postgres_driver new_sqlite_driver
new_driver cfg =
    if has_str cfg.type (bytes "postgres" ∷ bytes "postgresql" ∷ bytes "pg" ∷ [] ∷ [])
    then new_postgres_driver
        (if str_eq cfg.type [] then record cfg { type = bytes "postgres" } else cfg)
    else if has_str cfg.type (bytes "sqlite" ∷ bytes "sqlite3" ∷ [])
    then new_sqlite_driver cfg
    else err (bytes "unsupported database type: " ++ cfg.type)

unfoldable pub driver_type : Driver → Str
driver_type (postgres cfg) = bytes "postgres"
driver_type (sqlite path) = bytes "sqlite"
