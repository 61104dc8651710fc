-- ===== src/Connection.antt =====
-- pkg/postgres/connection.go: a SQL client, and the calls of pg_dump and pg_restore by options.
use datasaver.Base.{Str, bytes, List, [], ◌∷◌, ◌++◌, Result, ok, map_err, ◌>>=◌}
use datasaver.Base.Int.{ℤ}
use datasaver.Base.Decimal.{decimal}
use datasaver.Driver.Programs.{Command, Failure, Programs, Sql, context, version_number}

pub record Client : Type 0 where
  pub conn_string : Str

unfoldable pub new_client : Sql → Str → Result Str Client
new_client sql conn_string =
    context (bytes "failed to open database connection: ")
      (sql.open_source (bytes "postgres") conn_string)
    >>= λ _.
        context (bytes "failed to ping database: ") (sql.ping (bytes "postgres") conn_string)
        >>= λ _. ok (record { conn_string = conn_string })

unfoldable pub get_version : Sql → Client → Result Str Str
get_version sql c =
    context (bytes "failed to get postgres version: ")
      (sql.query (bytes "postgres") c.conn_string (bytes "SELECT version()") [])
    >>= λ text. ok (version_number text)

-- `scan` reads the one value of the answer as an int64.
unfoldable pub get_database_size : Sql → (Str → Result Str ℤ) → Client → Str → Result Str ℤ
get_database_size sql scan c db_name = context (bytes "failed to get database size: ") (
    sql.query (bytes "postgres") c.conn_string (bytes "SELECT pg_database_size($1)") (db_name ∷ [])
    >>= scan)

pub record DumpOptions : Type 0 where
  pub format : Str
  pub compression : Str
  pub output_path : Str
  pub database : Str
  pub host : Str
  pub port : ℤ
  pub user : Str
  pub password : Str

-- The arguments that Dump and Restore share, and the variable of the password.
abbrev address : DumpOptions → List Str
address opts =
    bytes "-h"
    ∷ opts.host
    ∷ bytes "-p"
    ∷ decimal opts.port
    ∷ bytes "-U"
    ∷ opts.user
    ∷ bytes "-d"
    ∷ opts.database
    ∷ []

abbrev password_variable : DumpOptions → Str
password_variable opts = bytes "PGPASSWORD=" ++ opts.password

unfoldable pub dump_command : DumpOptions → Command
dump_command opts = record {
  program = bytes "pg_dump";
  args = address opts ++ bytes "-F" ∷ opts.format ∷ bytes "-f" ∷ opts.output_path ∷ [];
  env = password_variable opts ∷ [];
  stdin = [];
}

unfoldable pub restore_command : Str → DumpOptions → Command
restore_command backup_path opts = record {
  program = bytes "pg_restore";
  args = address opts ++ backup_path ∷ [];
  env = password_variable opts ∷ [];
  stdin = [];
}

abbrev failed : Str → Failure → Str
failed program f = program ++ (bytes " failed: " ++ (f.text ++ (bytes ", output: " ++ f.output)))

unfoldable pub dump : Programs → DumpOptions → Result Str (Unit {0})
unfolding dump_command
dump run opts = map_err (failed (bytes "pg_dump")) (run (dump_command opts)) >>= λ _. ok tt

unfoldable pub restore : Programs → Str → DumpOptions → Result Str (Unit {0})
unfolding restore_command
restore run backup_path opts =
    map_err (failed (bytes "pg_restore")) (run (restore_command backup_path opts)) >>= λ _. ok tt
