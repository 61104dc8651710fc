-- ===== src/Config/Check.antt =====
-- What validate of internal/config/config.go lets through.
use datasaver.Base.{
  Bool, true, false, not, ◌&&◌, ◌||◌, Str, bytes, [], ◌∷◌, str_eq, str_eq_iff, to_lower, has_str,
  ok, ◌≡◌, refl, ◌↔◌, arith, sym, subst, Bool-cases, inl, inr,
}
use datasaver.Config.{
  Config, is_empty, postgres_types, sqlite_types, database_type, validate, is_sqlite, is_postgres,
}

abbrev pub is_valid : Config → Bool
is_valid c =
    (is_postgres c && (not (is_empty c.database.url) || not (is_empty c.database.name))
      || is_sqlite c && (not (is_empty c.database.path) || not (is_empty c.database.name)))
    && (str_eq c.storage.backend (bytes "local")
        || str_eq c.storage.backend (bytes "s3")
          && not (is_empty c.storage.s3.bucket)
          && not (is_empty c.storage.s3.access_key)
          && not (is_empty c.storage.s3.secret_key))
    && (str_eq c.compression (bytes "gzip")
        || str_eq c.compression (bytes "zstd")
        || str_eq c.compression (bytes "none"))

has_str_cases3 :
    (t a b c : Str) → has_str t (a ∷ b ∷ c ∷ []) ≡ true → (P : Str → Type 0) → P a → P b → P c → P t
unfolding has_str
has_str_cases3 t a b c h P pa pb pc = elim (Bool-cases (str_eq a t)) [
  | inl e ↦ subst P ((str_eq_iff a t).0 e) pa
  | inr na ↦ elim (Bool-cases (str_eq b t)) [
    | inl e ↦ subst P ((str_eq_iff b t).0 e) pb
    | inr nb ↦ subst P ((str_eq_iff c t).0 (ground arith)) pc
  ]
]

disjoint_types : (t : Str) → has_str t postgres_types ≡ true → has_str t sqlite_types ≡ false
disjoint_types t h =
    has_str_cases3 t (bytes "postgres") (bytes "postgresql") (bytes "pg") h
      (λ u. has_str u sqlite_types ≡ false) (unfold has_str in refl) (unfold has_str in refl)
      (unfold has_str in refl)

eq-nil_of_empty : (s : Str) → is_empty s ≡ true → s ≡ []
eq-nil_of_empty [] h = refl
eq-nil_of_empty (c ∷ s) h = cc

database_type-postgres : (c : Config) → has_str (database_type c) postgres_types ≡ is_postgres c
unfolding database_type is_postgres
database_type-postgres c = elim (Bool-cases (is_empty (to_lower c.database.type))) [
  | inl empty ↦ rw empty (unfold has_str in refl)
  | inr other ↦ rw other
]

database_type-sqlite : (c : Config) → has_str (database_type c) sqlite_types ≡ is_sqlite c
unfolding database_type is_sqlite
database_type-sqlite c = elim (Bool-cases (is_empty (to_lower c.database.type))) [
  | inl empty ↦
      rw (empty, eq-nil_of_empty (to_lower c.database.type) empty) (unfold has_str in refl)
  | inr other ↦ rw other
]

local-ne-s3 : (s : Str) → str_eq s (bytes "local") ≡ true → str_eq s (bytes "s3") ≡ false
local-ne-s3 s h =
    subst (λ t. str_eq t (bytes "s3") ≡ false) (sym ((str_eq_iff s (bytes "local")).0 h))
      (unfold str_eq in refl)

-- A configuration is accepted exactly when its database, its storage and its compression are.
pub validate_iff : (c : Config) → (validate c ≡ ok tt) ↔ (is_valid c ≡ true)
unfolding validate
validate_iff c = ground (
  arith,
  database_type-postgres c,
  database_type-sqlite c,
  disjoint_types (database_type c),
  local-ne-s3 c.storage.backend,
)

-- Of an accepted configuration exactly one of IsSQLite and IsPostgres holds.
pub is_sqlite-not_postgres : (c : Config) → validate c ≡ ok tt → is_sqlite c ≡ not (is_postgres c)
is_sqlite-not_postgres c h =
    let valid = (validate_iff c).0 h in
    ground (
      arith,
      valid,
      database_type-postgres c,
      database_type-sqlite c,
      disjoint_types (database_type c),
    )
