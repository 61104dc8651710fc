-- ===== src/Driver/Postgres.antt =====
-- pkg/database/postgres.go: the driver that calls pg_dump and pg_restore.
pub mod Laws
use datasaver.Base.{
  ℕ, Bool, true, false, not, Str, bytes, List, [], ◌∷◌, ◌++◌, Option, none, some, if◌then◌else◌,
  str_eq, Result, ok, err, map_err, ◌>>=◌,
}
use datasaver.Base.Int.{ℤ}
use datasaver.Base.Decimal.{decimal}
use datasaver.Base.Percent.{query_escape}
use datasaver.Driver.{DriverConfig}
use datasaver.Driver.Programs.{Command, Failure, Programs, Sql, context, version_number}
use datasaver.Storage.{Reader}

-- A PostgresDriver. Its db is nil until Connect succeeds, and then stands for its data source.
pub record PostgresDriver : Type 0 where
  pub cfg : DriverConfig
  pub db : Option Str

unfoldable pub new_postgres : DriverConfig → PostgresDriver
new_postgres cfg = record { cfg = cfg; db = none }

-- `set_path` parses a URL, changes its path and prints it; it gives nothing where the URL does not
-- parse.
module _ (set_path : Str → Str → Option Str) where
  unfoldable pub conn_string : DriverConfig → Str → Str
  conn_string cfg db_name =
      if not (str_eq cfg.url [])
      then if str_eq db_name []
        then cfg.url
        else elim (set_path cfg.url (bytes "/" ++ db_name)) [ none ↦ cfg.url | some u ↦ u ]
      else let name = if str_eq db_name [] then cfg.name else db_name in
        bytes "postgres://"
        ++ (cfg.user
            ++ (bytes ":"
                ++ (query_escape cfg.password
                    ++ (bytes "@"
                        ++ (cfg.host
                            ++ (bytes ":"
                                ++ (decimal cfg.port
                                    ++ (bytes "/" ++ (name ++ bytes "?sslmode=disable")))))))))

  unfoldable pub connection_string : DriverConfig → Str
  unfolding conn_string
  connection_string cfg = conn_string cfg []

  -- Connect, on a driver that is open afterwards if no error comes back.
  unfoldable pub connect : Sql → PostgresDriver → Result Str (Unit {0}) × PostgresDriver
  unfolding connection_string
  connect sql d =
      let source = connection_string d.cfg in
      elim (sql.open_source (bytes "postgres") source) [
        | err e ↦ (err (bytes "failed to open database connection: " ++ e), d)
        | ok _ ↦ elim (sql.ping (bytes "postgres") source) [
          | err e ↦ (err (bytes "failed to ping database: " ++ e), d)
          | ok _ ↦ (ok tt, record d { db = some source })
        ]
      ]

  unfoldable pub version : Sql → PostgresDriver → Result Str Str
  version sql d = elim d.db [
    | none ↦ err (bytes "database not connected")
    | some source ↦
        context (bytes "failed to get postgres version: ")
          (sql.query (bytes "postgres") source (bytes "SELECT version()") [])
        >>= λ text. ok (version_number text)
  ]

  abbrev pub failed : Str → Failure → Str
  failed program f = program ++ (bytes " failed: " ++ (f.text ++ (bytes ", output: " ++ f.output)))

  unfoldable pub dump_command : DriverConfig → Command
  unfolding conn_string
  dump_command cfg = record {
    program = bytes "pg_dump";
    args = bytes "-d" ∷ conn_string cfg [] ∷ bytes "-F" ∷ bytes "c" ∷ [];
    env = [];
    stdin = [];
  }

  -- Dump: the bytes that go to its writer.
  unfoldable pub dump : Programs → DriverConfig → Result Str Str
  unfolding dump_command
  dump run cfg = map_err (failed (bytes "pg_dump")) (run (dump_command cfg))

  unfoldable pub dump_to_file : Programs → DriverConfig → Str → Result Str (Unit {0})
  dump_to_file run cfg output_path =
      map_err (failed (bytes "pg_dump")) (
        run (record {
          program = bytes "pg_dump";
          args =
              bytes "-d"
              ∷ conn_string cfg []
              ∷ bytes "-F"
              ∷ bytes "c"
              ∷ bytes "-f"
              ∷ output_path
              ∷ [];
          env = [];
          stdin = [];
        }))
      >>= λ _. ok tt

  unfoldable pub restore_command : DriverConfig → Str → Str → Command
  unfolding conn_string
  restore_command cfg target_db file = record {
    program = bytes "pg_restore";
    args =
        bytes "-d"
        ∷ conn_string cfg (if str_eq target_db [] then cfg.name else target_db)
        ∷ bytes "--clean"
        ∷ bytes "--if-exists"
        ∷ bytes "--no-owner"
        ∷ bytes "--no-privileges"
        ∷ file
        ∷ [];
    env = [];
    stdin = [];
  }

  -- Restore. `temp` is the name of its temporary file, or the error of its creation, and `write`
  -- says whether the bytes of the reader can be written to it.
  unfoldable pub restore :
      Programs
      → Result Str Str
      → (Str → Result Str (Unit {0}))
      → DriverConfig
      → Reader
      → Str
      → Result Str (Unit {0})
  unfolding restore_command
  restore run temp write cfg reader target_db =
      context (bytes "failed to create temp file: ") temp >>= λ file.
      context (bytes "failed to write restore data: ") (reader >>= write) >>= λ _.
      map_err (failed (bytes "pg_restore")) (run (restore_command cfg target_db file)) >>= λ _.
      ok tt
