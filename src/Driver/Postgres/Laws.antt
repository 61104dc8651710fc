-- ===== src/Driver/Postgres/Laws.antt =====
-- What a reader of the connection string of pkg/database/postgres.go takes for the password.
use datasaver.Base.{
  ℕ, true, false, Str, bytes, [], ◌∷◌, ◌++◌, map, Option, some, if◌then◌else◌, str_eq_refl,
  drop_prefix, drop_prefix-append, ◌==◌, ◌≡◌, refl, ◌∙◌, arith, All, All-map,
}
use mathlib.Core.List.{append-nil}
use datasaver.Base.Percent.{
  query_escape, query_escape-All, percent_decode, percent_decode-query_escape, space_read, IsBytes,
  is_escaped,
}
use datasaver.Driver.{DriverConfig}
use datasaver.Driver.Postgres.{conn_string}

-- The bytes before the first one of a kind, and the bytes behind it.
unfoldable pub before : ℕ → Str → Str
before x [] = []
before x (c ∷ s) = let rest = before x s in if c == x then [] else c ∷ rest

unfoldable pub after : ℕ → Str → Str
after x [] = []
after x (c ∷ s) = let rest = after x s in if c == x then s else rest

abbrev pub Lacks : ℕ → Str → Type 0
Lacks x = All (λ c. (c == x) ≡ false)

before-append : (x : ℕ) (s t : Str) → Lacks x s → before x (s ++ t) ≡ s ++ before x t
unfolding before
before-append x [] t h = refl
before-append x (c ∷ s) t h = ground (arith, h, before-append x s t h.1)

after-append : (x : ℕ) (s t : Str) → Lacks x s → after x (s ++ x ∷ t) ≡ t
unfolding after
after-append x [] t h = ground arith
after-append x (c ∷ s) t h = ground (arith, h, after-append x s t h.1)

-- The password of a URL: percent-decoded from behind the first colon of what stands before the
-- first @ of the authority.
unfoldable pub password_of : Str → Option Str
unfolding before after
password_of url =
    percent_decode false
      (after b':' (before b'@' (before b'/' (drop_prefix url (bytes "postgres://")))))

-- Escaped text has no sign that ends a part of a URL.
escaped-Lacks :
    (x : ℕ) (s : Str) → is_escaped x ≡ false → All (λ c. is_escaped c ≡ true) s → Lacks x s
escaped-Lacks x s h = All-map _ _ (λ c e. ground (arith, h, e)) s

-- The user of a URL as the connection string needs it.
pub record IsPlain (user : Str) : Type 0 where
  pub no_colon : Lacks b':' user
  pub no_at : Lacks b'@' user
  pub no_slash : Lacks b'/' user

password_of-parts :
    (user escaped rest : Str)
    → IsPlain user
    → All (λ c. is_escaped c ≡ true) escaped
    → password_of (bytes "postgres://" ++ (user ++ (bytes ":" ++ (escaped ++ (bytes "@" ++ rest)))))
      ≡ percent_decode false escaped
unfolding password_of
password_of-parts user escaped rest plain safe =
    let no_slash = escaped-Lacks b'/' escaped refl safe in
    let no_at = escaped-Lacks b'@' escaped refl safe in
    rw
      (
        drop_prefix-append (bytes "postgres://"),
        before-append b'/' user _ plain.no_slash,
        before-append b'/' escaped (b'@' ∷ rest) no_slash,
        before-append b'@' user _ plain.no_at,
        before-append b'@' escaped (b'@' ∷ before b'/' rest) no_at,
        append-nil,
        after-append b':' user escaped plain.no_colon,
      )
      refl

-- Without a URL, with a user that no colon, @ or slash stands in, and with a password of bytes: who
-- decodes the connection string as a URL reads the password with a plus sign for each space, and
-- otherwise as it is.
pub password_of-conn_string :
    (set_path : Str → Str → Option Str) (cfg : DriverConfig) (db_name : Str)
    → cfg.url ≡ []
    → IsPlain cfg.user
    → IsBytes cfg.password
    → password_of (conn_string set_path cfg db_name) ≡ some (map (space_read false) cfg.password)
unfolding conn_string
password_of-conn_string set_path cfg db_name no_url plain small =
    rw (no_url, str_eq_refl [])
      (password_of-parts cfg.user (query_escape cfg.password) _ plain
          (query_escape-All cfg.password small)
        ∙ percent_decode-query_escape false cfg.password small)
