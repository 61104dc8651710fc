-- ===== src/Tests/Commands.antt =====
-- Examples of the theorems on the commands and the daemon.
use mathlib.Core.List.{Memᴰ}
use datasaver.Base.{
  Bool, true, false, ◌&&◌, ◌||◌, ◌==◌, Str, bytes, List, [], ◌∷◌, ◌++◌, Option, none, some,
  if◌then◌else◌, str_eq, str_eq_iff, str_eq_refl, has_str, has_prefix, trim_prefix, trim_suffix,
  ◌≡◌, ◌≢◌, ◌⊎◌, refl, arith, inl, inr, Bool-cases, subst,
}
use datasaver.Base.Decimal.{decimal}
use datasaver.Config.{Config, default_config}
use datasaver.Config.Env.{Env}
use datasaver.Commands.Daemon.{oauth, base_url}
use datasaver.Commands.Discovery.{ServeMux, get_pattern, routed, challenge_resolves}
use datasaver.Mcp.Auth
use datasaver.Mcp.Auth.{Authenticator, auth_middleware, write_unauthorized, unauthorized}
use datasaver.Mcp.Oauth
use datasaver.Mcp.Oauth.{Response, resource, answer, resource_metadata, resource_path}

-- An environment that names the database.
abbrev env : Env
env k = if str_eq k (bytes "DATASAVER_DB_NAME") then bytes "app" else []

abbrev loaded : Config
loaded = record default_config { database = record default_config.database { name = bytes "app" } }

-- A mux that knows patterns with GET, and patterns that are paths.
abbrev plain : List Str → Str → Option Str
plain patterns [] = none
plain patterns (c ∷ p) = if c == b'/' && has_str (c ∷ p) patterns then some (c ∷ p) else none

abbrev reads : Str → Bool
reads method = str_eq method (bytes "GET") || str_eq method (bytes "HEAD")

unfoldable serves : List Str → Str → Str → Option Str
serves patterns method path =
    if reads method && has_str (get_pattern path) patterns
    then some (get_pattern path)
    else plain patterns path

reads_iff : (method : Str) → reads method ≡ true → (method ≡ bytes "GET") ⊎ (method ≡ bytes "HEAD")
reads_iff method h = elim (Bool-cases (str_eq method (bytes "GET"))) [
  | inl get ↦ inl ((str_eq_iff method (bytes "GET")).0 get)
  | inr other ↦ inr ((str_eq_iff method (bytes "HEAD")).0 (ground (arith, h, other)))
]

plain-get : (patterns : List Str) (path q : Str) → plain patterns path ≢ some (get_pattern q)
plain-get patterns [] q e = ground (arith, e)
plain-get patterns (c ∷ p) q e = ground (arith, e)

has_str-mem : (s : Str) (l : List Str) → Memᴰ s l → has_str s l ≡ true
unfolding has_str
has_str-mem s [] at = elim at [ ]
has_str-mem s (x ∷ l) (Memᴰ.head e) = rw (subst (λ y. str_eq y s ≡ true) e (str_eq_refl s)) refl
has_str-mem s (x ∷ l) (Memᴰ.tail at) = ground (arith, has_str-mem s l at)

unread :
    (patterns : List Str) (method path : Str) (o : Option Str)
    → reads method ≡ false
    → serves patterns method path ≡ o
    → plain patterns path ≡ o
unfolding serves
unread patterns method path o no_read e = rw (no_read, serves) at e

own :
    (patterns : List Str)
    → has_str (get_pattern resource_path) patterns ≡ true
    → serves patterns (bytes "GET") resource_path ≡ some (get_pattern resource_path)
unfolding serves
own patterns h = rw (str_eq_refl (bytes "GET"), h) refl

abbrev mux : ServeMux
mux = record {
  serves = serves;
  get_or_head = λ patterns method path q e. elim (Bool-cases (reads method)) [
    | inl read ↦ reads_iff method read
    | inr no_read ↦
        absurd
          (plain-get patterns path q (unread patterns method path (some (get_pattern q)) no_read e))
  ];
  own_path = λ patterns at. own patterns (has_str-mem (get_pattern resource_path) patterns at);
}

abbrev keyed : Authenticator
keyed = record { api_key = bytes "key"; api_key_hash = [] }

abbrev challenge : Str
challenge =
    bytes "Bearer resource_metadata="
    ++ (34 ∷ bytes "http://localhost:8080/.well-known/oauth-protected-resource")
    ++ (34 ∷ bytes ", scope=")
    ++ (34 ∷ bytes "mcp:full")
    ++ (34 ∷ [])

refused :
    auth_middleware (Auth.new_handler keyed (base_url env loaded)) (bytes "Bearer other")
    ≡ unauthorized challenge (bytes "Unauthorized")
unfolding auth_middleware base_url Auth.new_handler has_prefix trim_prefix str_eq trim_suffix
    decimal
refused = refl

challenge_resolves_example :
    (challenge
      ≡ bytes "Bearer resource_metadata="
        ++ (34 ∷ (Oauth.new_handler (base_url env loaded)).base_url ++ resource_path)
        ++ (34 ∷ bytes ", scope=")
        ++ (34 ∷ bytes "mcp:full")
        ++ (34 ∷ []))
    × ((handle : Str → Response) × (routed mux env loaded keyed (bytes "GET") resource_path
          ≡ some (oauth handle))
        × (handle (bytes "GET")
            ≡ answer (resource (resource_metadata (Oauth.new_handler (base_url env loaded)))))
        × ((resource_metadata (Oauth.new_handler (base_url env loaded))).authorization_servers
            ≡ (Oauth.new_handler (base_url env loaded)).base_url ∷ []))
challenge_resolves_example =
    challenge_resolves mux env loaded keyed (bytes "Bearer other") challenge (bytes "Unauthorized")
      refused
