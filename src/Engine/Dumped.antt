-- ===== src/Engine/Dumped.antt =====
-- How the bytes that a run of internal/backup/engine.go stores are made of its dump.
use mathlib.Core.List.{reverse-append}
use datasaver.Base.{
  false, Str, bytes, [], ◌++◌, str_eq, ok, ◌≡◌, inl, inr, arith, Bool-cases, Result-cases,
  has_suffix,
}
use datasaver.Config.{Config, is_sqlite}
use datasaver.Driver.{Driver}
use datasaver.Metadata.{generate_backup_id}
use datasaver.Engine.Run.{
  Prepared, prepare, started, make_dump, compressed, dump_path, value_or, World,
}

-- The dump and what was stored of it.
pub prepare-dump :
    (cfg : Config) (w : World) (p : Prepared) (driver : Driver) (version dump : Str)
    → prepare cfg w ≡ ok p
    → make_dump cfg w ≡ ok (driver, version, dump)
    → (compressed cfg w dump ≡ ok (p.path, p.text)) × (p.checksum ≡ value_or [] (w.checksum p.text))
unfolding prepare
prepare-dump cfg w p driver version dump prepared dumped =
    elim (Result-cases (compressed cfg w dump)) [
      | inr (r, failed) ↦ absurd (ground (arith, dumped, failed))
      | inl ((path, final), packed) ↦
          (ground (arith, dumped, packed), ground (arith, dumped, packed))
    ]

-- What is not packed has another name than what is.
gz_sql : (s : Str) → has_suffix (s ++ bytes ".sql") (bytes ".gz") ≡ false
unfolding has_suffix
gz_sql s = rw reverse-append

gz_dump : (s : Str) → has_suffix (s ++ bytes ".dump") (bytes ".gz") ≡ false
unfolding has_suffix
gz_dump s = rw reverse-append

pub dump_path-gz : (cfg : Config) (w : World) → has_suffix (dump_path cfg w) (bytes ".gz") ≡ false
unfolding dump_path
dump_path-gz cfg w = elim (Bool-cases (is_sqlite cfg)) [
  | inl lite ↦ rw lite (gz_sql (started cfg w).id)
  | inr other ↦ rw other (gz_dump (started cfg w).id)
]

pub compressed-nonempty :
    (cfg : Config) (w : World) (dump path text : Str)
    → compressed cfg w dump ≡ ok (path, text)
    → str_eq path [] ≡ false
unfolding compressed dump_path generate_backup_id str_eq
compressed-nonempty cfg w dump path text h = ground arith
