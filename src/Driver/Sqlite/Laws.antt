-- ===== src/Driver/Sqlite/Laws.antt =====
-- What CopyDatabase and Restore of pkg/database/sqlite.go do to the files.
use datasaver.Base.{
  false, Str, bytes, [], ◌∷◌, ◌++◌, none, some, if◌then◌else◌, str_eq, str_eq_iff, str_eq_refl, ok,
  ◌≡◌, ◌≢◌, refl, ◌∙◌, ◌⊎◌, inl, inr, arith, Option-cases, Result-cases,
}
use datasaver.Driver.Sqlite.{
  World, Files, put, rename, copy_database, stat_ok, import_into, restore,
}
use datasaver.Storage.{Reader}

-- A copy that ends without an error has the bytes of the database, unless the two paths are one:
-- then the database is empty afterwards.
pub copy_database_lem :
    (w : World) (path dest text : Str) (files : Files)
    → files path ≡ some text
    → (copy_database w path dest files).0 ≡ ok tt
    → ((copy_database w path dest files).1 dest ≡ (if str_eq dest path then some [] else some text))
      × ((copy_database w path dest files).1 path
          ≡ (if str_eq dest path then some [] else some text))
unfolding copy_database put
copy_database_lem w path dest text files there done =
    (ground (arith, there, str_eq_refl dest), ground (arith, there, str_eq_refl dest))

bak_apart : (p : Str) → str_eq p (p ++ bytes ".bak") ≡ false
unfolding str_eq
bak_apart [] = refl
bak_apart (c ∷ p) = ground (arith, bak_apart p)

-- With an existing target, a restore changes nothing or imports behind the renaming.
restore-cases :
    (w : World) (path target old : Str) (reader : Reader) (files : Files)
    → w.stat ≡ none
    → target ≢ []
    → files target ≡ some old
    → ((restore w path reader target files).1 ≡ files)
      ⊎ ((script : Str) × (restore w path reader target files
            ≡ import_into w target script (rename target (target ++ bytes ".bak") files)))
unfolding restore stat_ok
restore-cases w path target old reader files stat named there =
    let name : str_eq target [] ≡ false = ground (arith, str_eq_iff target [], named) in
    elim (Option-cases w.create_temp) [
      | inr (e, failed) ↦ inl (ground (arith, failed))
      | inl made ↦ elim (Result-cases reader) [
        | inr (e, broken) ↦ inl (ground (arith, made, broken))
        | inl (script, read) ↦ elim (Option-cases w.write_temp) [
          | inr (e, failed) ↦ inl (ground (arith, made, read, failed))
          | inl written ↦ elim (Option-cases w.rename_file) [
            | inr (e, failed) ↦ inl (ground (arith, made, read, written, name, stat, there, failed))
            | inl renamed ↦
                inr (script, ground (arith, made, read, written, name, stat, there, renamed))
          ]
        ]
      ]
    ]

-- The import leaves the renamed database.
import_into-bak :
    (w : World) (target script : Str) (files : Files)
    → (import_into w target script (rename target (target ++ bytes ".bak") files)).1
        (target ++ bytes ".bak")
      ≡ files target
unfolding import_into rename put
import_into-bak w target script files =
    ground (arith, bak_apart target, str_eq_refl (target ++ bytes ".bak"))

-- Whatever fails, and whatever sqlite3 does to the database, an existing one is kept: under its own
-- name, or under the name with .bak. This needs that Stat works and that the target has a name.
pub restore_keeps :
    (w : World) (path target old : Str) (reader : Reader) (files : Files)
    → w.stat ≡ none
    → target ≢ []
    → files target ≡ some old
    → ((restore w path reader target files).1 target ≡ some old)
      ⊎ ((restore w path reader target files).1 (target ++ bytes ".bak") ≡ some old)
restore_keeps w path target old reader files stat named there =
    elim (restore-cases w path target old reader files stat named there) [
      | inl same ↦ inl (rw same there)
      | inr (script, imported) ↦ inr (rw imported (import_into-bak w target script files ∙ there))
    ]

-- A restore to a named target that ends without an error has what sqlite3 makes of the script from
-- nothing, if Stat works.
pub restore_fresh :
    (w : World) (path target script : Str) (files : Files)
    → w.stat ≡ none
    → target ≢ []
    → (restore w path (ok script) target files).0 ≡ ok tt
    → (restore w path (ok script) target files).1 target ≡ (w.import_script none script).1
unfolding restore put rename import_into stat_ok
restore_fresh w path target script files stat named done =
    let name : str_eq target [] ≡ false = ground (arith, str_eq_iff target [], named) in
    elim (Option-cases (files target)) [
      | inl fresh ↦ ground (arith, done, stat, name, fresh, str_eq_refl target)
      | inr (old, there) ↦ ground (
        arith,
        done,
        stat,
        name,
        there,
        str_eq_refl target,
        bak_apart target,
        str_eq_iff target (target ++ bytes ".bak"),
        str_eq_iff (target ++ bytes ".bak") target,
      )
    ]
