-- ===== src/Driver/Sqlite.antt =====
-- pkg/database/sqlite.go: the driver that calls sqlite3, and the files that it moves.
pub mod Laws
use datasaver.Base.{
  ℕ, Bool, true, false, not, Str, bytes, List, [], ◌∷◌, ◌++◌, Option, none, some, if◌then◌else◌,
  str_eq, Result, ok, err, map_err, ◌>>=◌,
}
use datasaver.Driver.Programs.{Command, Failure, Programs, Sql, context}
use datasaver.Storage.{Reader}

-- A SQLiteDriver. Its db is nil until Connect succeeds, and then stands for its data source.
pub record SqliteDriver : Type 0 where
  pub path : Str
  pub db : Option Str

-- The files of the machine, by their paths.
abbrev pub Files : Type 0
Files = Str → Option Str

unfoldable pub put : Str → Option Str → Files → Files
put p content files q = if str_eq p q then content else files q

unfoldable pub rename : Str → Str → Files → Files
unfolding put
rename old new files = put new (files old) (put old none files)

-- Connect. `missing` is os.IsNotExist of the error of Stat.
unfoldable pub connect :
    (missing : Str → Bool) → Sql → SqliteDriver → Result Str (Unit {0}) × SqliteDriver
connect missing sql d =
    let source = d.path ++ bytes "?mode=ro" in
    if missing d.path
    then (err (bytes "sqlite database file not found: " ++ d.path), d)
    else elim (sql.open_source (bytes "sqlite") source) [
      | err e ↦ (err (bytes "failed to open sqlite database: " ++ e), d)
      | ok _ ↦ elim (sql.ping (bytes "sqlite") source) [
        | err e ↦ (err (bytes "failed to ping sqlite database: " ++ e), d)
        | ok _ ↦ (ok tt, record d { db = some source })
      ]
    ]

unfoldable pub version : Sql → SqliteDriver → Result Str Str
version sql d = elim d.db [
  | none ↦ err (bytes "database not connected")
  | some source ↦
      context (bytes "failed to get sqlite version: ")
        (sql.query (bytes "sqlite") source (bytes "SELECT sqlite_version()") [])
]

unfoldable pub dump_command : Str → Command
dump_command path = record {
  program = bytes "sqlite3";
  args = path ∷ bytes ".dump" ∷ [];
  env = [];
  stdin = [];
}

-- Dump: the bytes that go to its writer. What sqlite3 writes to its standard error is passed on.
unfoldable pub dump : Programs → Str → Result Str Str
unfolding dump_command
dump run path =
    map_err (λ (f : Failure). bytes "sqlite3 dump failed: " ++ f.text) (run (dump_command path))

-- DumpToFile, up to the file: `create` is the error of its creation.
unfoldable pub dump_to_file : Programs → Option Str → Str → Result Str Str
unfolding dump
dump_to_file run create path = elim create [
  | some e ↦ err (bytes "failed to create output file: " ++ e)
  | none ↦ dump run path
]

-- What the calls of CopyDatabase and Restore meet: the errors of the calls of package os, and what
-- sqlite3 makes of a database and a script, whether it fails or not.
pub record World : Type 0 where
  pub mkdir_all : Option Str
  pub create : Option Str
  pub copy : Option Str
  pub sync : Option Str
  pub create_temp : Option Str
  pub write_temp : Option Str
  pub stat : Option Str
  pub rename_file : Option Str
  pub open_script : Option Str
  pub import_script : Option Str → Str → Result Str (Unit {0}) × Option Str

abbrev pub after_call : {A : Type 0} → Option Str → Str → A → Result Str A
after_call none message a = ok a
after_call (some e) message a = err (message ++ e)

-- CopyDatabase. The source is open when the destination is created, which empties a file that is
-- there, and is read afterwards.
unfoldable pub copy_database : World → Str → Str → Files → Result Str (Unit {0}) × Files
unfolding put
copy_database w path dest files = elim (files path) [
  | none ↦ (err (bytes "failed to open source database: no such file"), files)
  | some text ↦ elim w.mkdir_all [
    | some e ↦ (err (bytes "failed to create destination directory: " ++ e), files)
    | none ↦ elim w.create [
      | some e ↦ (err (bytes "failed to create destination file: " ++ e), files)
      | none ↦
          let created = put dest (some []) files in
          elim w.copy [
            | some e ↦ (err (bytes "failed to copy database: " ++ e), created)
            | none ↦
                let copied = put dest (created path) created in
                elim w.sync [ some e ↦ (err e, copied) | none ↦ (ok tt, copied) ]
          ]
    ]
  ]
]

-- Stat finds a file, and its call does not fail.
unfoldable pub stat_ok : World → Str → Files → Bool
stat_ok w p files = elim w.stat [
  | some e ↦ false
  | none ↦ elim (files p) [ none ↦ false | some text ↦ true ]
]

-- The run of sqlite3 on the target, with the script on its standard input.
unfoldable pub import_into : World → Str → Str → Files → Result Str (Unit {0}) × Files
unfolding put
import_into w target script files = elim w.open_script [
  | some e ↦ (err (bytes "failed to open sql file: " ++ e), files)
  | none ↦
      let (done, content) = w.import_script (files target) script in
      (context (bytes "sqlite3 restore failed: ") done, put target content files)
]

unfoldable pub restore : World → Str → Reader → Str → Files → Result Str (Unit {0}) × Files
unfolding stat_ok rename import_into
restore w path reader target_db files =
    let target = if str_eq target_db [] then path else target_db in
    elim w.create_temp [
      | some e ↦ (err (bytes "failed to create temp file: " ++ e), files)
      | none ↦ elim reader [
        | err e ↦ (err (bytes "failed to write restore data: " ++ e), files)
        | ok script ↦ elim w.write_temp [
          | some e ↦ (err (bytes "failed to write restore data: " ++ e), files)
          | none ↦
              if not (stat_ok w target files)
              then import_into w target script files
              else elim w.rename_file [
                | some e ↦ (err (bytes "failed to backup existing database: " ++ e), files)
                | none ↦ import_into w target script (rename target (target ++ bytes ".bak") files)
              ]
        ]
      ]
    ]
