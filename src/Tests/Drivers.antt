-- ===== src/Tests/Drivers.antt =====
-- Examples of the theorems on the database drivers.
use datasaver.Base.{
  false, bytes, [], ◌++◌, none, some, if◌then◌else◌, str_eq, ok, err, ◌≡◌, ◌⊎◌, refl, map, arith,
}
use datasaver.Base.Int.{pos}
use datasaver.Base.Percent.{space_read}
use datasaver.Driver.{DriverConfig}
use datasaver.Driver.Postgres.{conn_string}
use datasaver.Driver.Postgres.Laws.{IsPlain, password_of, password_of-conn_string}
use datasaver.Driver.Sqlite.{
  World, Files, copy_database, restore, rename, import_into, stat_ok, put,
}
use datasaver.Driver.Sqlite.Laws.{restore_keeps}

abbrev spaced : DriverConfig
spaced = record {
  type = bytes "postgres";
  host = bytes "db";
  port = pos 5432;
  name = bytes "app";
  user = bytes "me";
  password = bytes "a b@c";
  url = [];
  path = [];
}

plain : IsPlain (bytes "me")
plain = record {
  no_colon = (refl, (refl, tt));
  no_at = (refl, (refl, tt));
  no_slash = (refl, (refl, tt));
}

password_of-conn_string_example :
    password_of (conn_string (λ u p. none) spaced (bytes "app"))
    ≡ some (map (space_read false) (bytes "a b@c"))
password_of-conn_string_example =
    password_of-conn_string (λ u p. none) spaced (bytes "app") refl plain
      (omega arith, (omega arith, (omega arith, (omega arith, (omega arith, tt)))))

plus_for_space : map (space_read false) (bytes "a b@c") ≡ bytes "a+b@c"
plus_for_space = refl

-- sqlite3 turns nothing and a script into the script, and fails on another database.
abbrev machine : World
machine = record {
  mkdir_all = none;
  create = none;
  copy = none;
  sync = none;
  create_temp = none;
  write_temp = none;
  stat = none;
  rename_file = none;
  open_script = none;
  import_script = λ old script. elim old [
    | none ↦ (ok tt, some script)
    | some content ↦ (err (bytes "table exists"), some content)
  ];
}

abbrev database : Files
database p = if str_eq (bytes "a.db") p then some (bytes "old") else none

-- The copy of a database onto itself.
copied : (copy_database machine (bytes "a.db") (bytes "a.db") database).0 ≡ ok tt
unfolding copy_database str_eq
copied = refl

restore_keeps_example :
    ((restore machine (bytes "a.db") (ok (bytes "new")) (bytes "a.db") database).1 (bytes "a.db")
      ≡ some (bytes "old"))
    ⊎ ((restore machine (bytes "a.db") (ok (bytes "new")) (bytes "a.db") database).1
          (bytes "a.db" ++ bytes ".bak")
        ≡ some (bytes "old"))
unfolding str_eq
restore_keeps_example =
    restore_keeps machine (bytes "a.db") (bytes "a.db") (bytes "old") (ok (bytes "new")) database
      refl (λ e. cc) refl

restored : (restore machine (bytes "a.db") (ok (bytes "new")) (bytes "a.db") database).0 ≡ ok tt
unfolding restore stat_ok rename import_into put str_eq
restored = refl
