-- ===== src/Driver/Accepted.antt =====
-- The types that NewDriver of pkg/database/factory.go takes, against those that validate of
-- internal/config/config.go lets through.
use datasaver.Base.{
  Bool, true, false, ◌&&◌, ◌||◌, Str, bytes, List, [], ◌∷◌, str_eq, str_eq_iff, to_lower, has_str,
  Result, ok, err, ◌≡◌, refl, ◌↔◌, arith, subst, Bool-cases, inl, inr,
}
use datasaver.Config.{
  Config, is_empty, validate, is_sqlite, is_postgres, postgres_types, sqlite_types,
}
use datasaver.Config.Check.{validate_iff}
use datasaver.Driver.{new_driver, new_postgres_driver, new_sqlite_driver, first_nonempty}
use datasaver.Engine.Run.{driver_config}

abbrev pub is_ok : {A : Type 0} → Result Str A → Bool
is_ok (ok a) = true
is_ok (err e) = false

-- All the words of the list are in lower case.
abbrev Lower : List Str → Type 0
Lower [] = Unit
Lower (w ∷ ws) = (to_lower w ≡ w) × Lower ws

Lower-of_has_str : (t : Str) (ws : List Str) → Lower ws → has_str t ws ≡ true → to_lower t ≡ t
unfolding has_str
Lower-of_has_str t [] l h = absurd (ground arith)
Lower-of_has_str t (w ∷ ws) (lw, lws) h = elim (Bool-cases (str_eq w t)) [
  | inl e ↦ subst (λ u. to_lower u ≡ u) ((str_eq_iff w t).0 e) lw
  | inr other ↦ Lower-of_has_str t ws lws (ground arith)
]

abbrev written : List Str
written = bytes "postgres" ∷ bytes "postgresql" ∷ bytes "pg" ∷ [] ∷ []

Lower-postgres : Lower written
unfolding to_lower
Lower-postgres = (refl, (refl, (refl, (refl, tt))))

Lower-sqlite : Lower sqlite_types
unfolding to_lower
Lower-sqlite = (refl, (refl, tt))

has_str-written : (t : Str) → has_str t written ≡ is_empty t || has_str t postgres_types
unfolding has_str
has_str-written [] = ground arith
has_str-written (x ∷ t) = ground arith

first_nonempty-empty : (p n : Str) → str_eq (first_nonempty p n) [] ≡ is_empty p && is_empty n
unfolding str_eq
first_nonempty-empty [] [] = refl
first_nonempty-empty [] (x ∷ n) = refl
first_nonempty-empty (x ∷ p) n = refl

-- Of the types that validate accepts, NewDriver takes those that are written in lower case.
pub new_driver_iff :
    (c : Config)
    → validate c ≡ ok tt
    → (is_ok (new_driver (driver_config c)) ≡ true) ↔ (to_lower c.database.type ≡ c.database.type)
unfolding new_driver driver_config new_sqlite_driver new_postgres_driver is_sqlite has_str
    is_postgres
new_driver_iff c accepted =
    let t = c.database.type in
    let valid = (validate_iff c).0 accepted in
    (
      λ taken. elim (Bool-cases (has_str t written)) [
        | inl p ↦ Lower-of_has_str t written Lower-postgres p
        | inr np ↦ elim (Bool-cases (has_str t sqlite_types)) [
          | inl q ↦ Lower-of_has_str t sqlite_types Lower-sqlite q
          | inr nq ↦ absurd (ground (arith, np, nq))
        ]
      ],
      λ lower. elim (Bool-cases (has_str t written)) [
        | inl p ↦ rw p refl
        | inr np ↦
            let same : is_sqlite c ≡ has_str t sqlite_types = rw (is_sqlite, lower) in
            let other : is_postgres c ≡ has_str t written =
              rw (is_postgres, lower, has_str-written t) in
            ground
              (arith, valid, np, same, other, first_nonempty-empty c.database.path c.database.name)
      ],
    )
