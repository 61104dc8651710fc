-- ===== src/Commands/Discovery.antt =====
-- The discovery endpoints of internal/mcp/oauth behind the mux of the daemon.
use mathlib.Core.List.{Memᴰ}
use datasaver.Base.{
  Bool, true, false, Str, bytes, List, [], ◌∷◌, ◌++◌, Option, none, some, if◌then◌else◌, str_eq,
  str_eq_iff, ◌≡◌, ◌⊎◌, refl, arith, inl, inr, subst, sym, ap, ◌∙◌, Option-cases,
}
use datasaver.Config.{Config}
use datasaver.Config.Env.{Env}
use datasaver.Mcp.Auth
use datasaver.Mcp.Auth.{
  Authenticator, Answer, unauthorized, auth_middleware, enabled, write_unauthorized,
}
use datasaver.Mcp.Oauth
use datasaver.Mcp.Oauth.{
  Handler, Response, resource, server, answer, resource_metadata, server_metadata, resource_path,
  server_path, routes, handle_protected_resource_metadata, handle_auth_server_metadata,
}
use datasaver.Mcp.Registry.{find, names}
use datasaver.Commands.Daemon.{Route, metrics, health, oauth, mcp, base_url, health_routes}

abbrev pub get_pattern : Str → Str
get_pattern path = bytes "GET " ++ path

-- What the daemon relies on of http.ServeMux: which of the patterns serves a method and a path. A
-- pattern with the method GET serves requests with GET and HEAD only, and it serves its own path.
pub record ServeMux : Type 0 where
  pub serves : List Str → Str → Str → Option Str
  pub get_or_head :
      (patterns : List Str) (method path q : Str)
      → serves patterns method path ≡ some (get_pattern q)
      → (method ≡ bytes "GET") ⊎ (method ≡ bytes "HEAD")
  pub own_path :
      (patterns : List Str)
      → Memᴰ (get_pattern resource_path) patterns
      → serves patterns (bytes "GET") resource_path ≡ some (get_pattern resource_path)

-- The first of the tests that is met.
oauth_picked :
    (m h r s : Bool) (f g handle : Str → Response) (last : Option Route)
    → ¬ (last ≡ some (oauth handle))
    → (if m
        then some metrics
        else if h
        then some health
        else if r
        then some (oauth f)
        else if s
        then some (oauth g)
        else last)
      ≡ some (oauth handle)
    → ((r ≡ true) × (f ≡ handle)) ⊎ ((s ≡ true) × (g ≡ handle))
oauth_picked true h r s f g handle last differs e = cc
oauth_picked false true r s f g handle last differs e = cc
oauth_picked false false true s f g handle last differs e = inl (refl, cc)
oauth_picked false false false true f g handle last differs e = inr (refl, cc)
oauth_picked false false false false f g handle last differs e = absurd (differs e)

mcp-oauth :
    (c : Bool) (h : Auth.Handler) (handle : Str → Response)
    → ¬ ((if c then some (mcp h) else none) ≡ some (oauth handle))
mcp-oauth true h handle e = cc
mcp-oauth false h handle e = cc

module _ (x : ServeMux) (env : Env) (cfg : Config) (a : Authenticator) where
  -- The route of a request on the health server.
  unfoldable pub routed : Str → Str → Option Route
  unfolding find names
  routed method path = elim (x.serves (names (health_routes env cfg a)) method path) [
    | none ↦ none
    | some pattern ↦ find pattern (health_routes env cfg a)
  ]

  abbrev pub discovery : Handler
  discovery = Oauth.new_handler (base_url env cfg)

  abbrev mcp_routes : Bool → List (Str × Route)
  mcp_routes c = if c then (bytes "/mcp", mcp (Auth.new_handler a (base_url env cfg))) ∷ [] else []

  find-mcp_routes :
      (pattern : Str) (handle : Str → Response) (c : Bool)
      → ¬ (find pattern (mcp_routes c) ≡ some (oauth handle))
  unfolding find
  find-mcp_routes pattern handle true e =
      mcp-oauth (str_eq (bytes "/mcp") pattern) (Auth.new_handler a (base_url env cfg)) handle e
  find-mcp_routes pattern handle false e = cc

  find-health_routes :
      (pattern : Str) (handle : Str → Response)
      → find pattern (health_routes env cfg a) ≡ some (oauth handle)
      → ((str_eq (get_pattern resource_path) pattern ≡ true)
          × (handle_protected_resource_metadata discovery ≡ handle))
        ⊎ ((str_eq (get_pattern server_path) pattern ≡ true)
            × (handle_auth_server_metadata discovery ≡ handle))
  unfolding find health_routes routes
  find-health_routes pattern handle found =
      oauth_picked (str_eq (bytes "/metrics") pattern) (str_eq (bytes "/health") pattern)
        (str_eq (get_pattern resource_path) pattern) (str_eq (get_pattern server_path) pattern)
        (handle_protected_resource_metadata discovery) (handle_auth_server_metadata discovery)
        handle (find pattern (mcp_routes (enabled a))) (find-mcp_routes pattern handle (enabled a))
        found

  -- Neither method is OPTIONS.
  metadata_of :
      (method : Str)
      → ((method ≡ bytes "GET") ⊎ (method ≡ bytes "HEAD"))
      → (handle_protected_resource_metadata discovery method
          ≡ answer (resource (resource_metadata discovery)))
        × (handle_auth_server_metadata discovery method
            ≡ answer (server (server_metadata discovery)))
  unfolding handle_protected_resource_metadata handle_auth_server_metadata str_eq
  metadata_of method (inl e) = rw e (refl, refl)
  metadata_of method (inr e) = rw e (refl, refl)

  -- A discovery endpoint answers every request that reaches it with its metadata: a preflight
  -- request with OPTIONS never gets there.
  pub routed_metadata :
      (method path : Str) (handle : Str → Response)
      → routed method path ≡ some (oauth handle)
      → (handle method ≡ answer (resource (resource_metadata discovery)))
        ⊎ (handle method ≡ answer (server (server_metadata discovery)))
  unfolding routed
  routed_metadata method path handle reached =
      elim (Option-cases (x.serves (names (health_routes env cfg a)) method path)) [
        | inl unserved ↦ absurd (none_some (rw (routed, unserved) at reached))
        | inr (pattern, served) ↦
            elim (find-health_routes pattern handle (rw (routed, served) at reached)) [
              | inl (same, e) ↦
                  let get =
                    x.get_or_head _ method path resource_path
                      (served ∙ ap some (sym ((str_eq_iff _ pattern).0 same))) in
                  inl (
                    subst (λ f. f method ≡ answer (resource (resource_metadata discovery))) e
                      (metadata_of method get).0)
              | inr (same, e) ↦
                  let get =
                    x.get_or_head _ method path server_path
                      (served ∙ ap some (sym ((str_eq_iff _ pattern).0 same))) in
                  inr (
                    subst (λ f. f method ≡ answer (server (server_metadata discovery))) e
                      (metadata_of method get).1)
            ]
      ]
    where
      none_some : none ≡ some (oauth handle) → ⊥
      none_some e = cc

  -- A refusal other than that of a missing configuration is the challenge.
  refused_challenge :
      (h : Auth.Handler) (header challenge text : Str)
      → auth_middleware h header ≡ unauthorized challenge text
      → write_unauthorized h ≡ unauthorized challenge text
  unfolding auth_middleware
  refused_challenge h header challenge text refused = ground (arith, refused)

  challenge_of : Answer → Str
  challenge_of (unauthorized challenge text) = challenge
  challenge_of other = []

  challenge_text :
      (challenge text : Str)
      → write_unauthorized (Auth.new_handler a (base_url env cfg)) ≡ unauthorized challenge text
      → challenge
        ≡ bytes "Bearer resource_metadata="
          ++ (34 ∷ discovery.base_url ++ resource_path)
          ++ (34 ∷ bytes ", scope=")
          ++ (34 ∷ bytes "mcp:full")
          ++ (34 ∷ [])
  unfolding write_unauthorized challenge_of Auth.new_handler Oauth.new_handler
  challenge_text challenge text e = sym (ap challenge_of e)

  resource_mem : Memᴰ (get_pattern resource_path) (names (health_routes env cfg a))
  unfolding names health_routes routes
  resource_mem = Memᴰ.tail (Memᴰ.tail (Memᴰ.head refl))

  routed_resource :
      routed (bytes "GET") resource_path
      ≡ some (oauth (handle_protected_resource_metadata discovery))
  unfolding routed find health_routes routes str_eq
  routed_resource = rw (routed, x.own_path (names (health_routes env cfg a)) resource_mem) refl

  -- A refusal of the MCP endpoint names the URL of a discovery endpoint. There the daemon answers a
  -- GET with the metadata of the MCP endpoint, whose authorization server has the same base URL.
  pub challenge_resolves :
      (header challenge text : Str)
      → auth_middleware (Auth.new_handler a (base_url env cfg)) header ≡ unauthorized challenge text
      → (challenge
          ≡ bytes "Bearer resource_metadata="
            ++ (34 ∷ discovery.base_url ++ resource_path)
            ++ (34 ∷ bytes ", scope=")
            ++ (34 ∷ bytes "mcp:full")
            ++ (34 ∷ []))
        × ((handle : Str → Response) × (routed (bytes "GET") resource_path ≡ some (oauth handle))
            × (handle (bytes "GET") ≡ answer (resource (resource_metadata discovery)))
            × ((resource_metadata discovery).authorization_servers ≡ discovery.base_url ∷ []))
  challenge_resolves header challenge text refused = (
    challenge_text challenge text (refused_challenge _ header challenge text refused),
    (
      handle_protected_resource_metadata discovery,
      routed_resource,
      (metadata_of (bytes "GET") (inl refl)).0,
      unfold resource_metadata in refl,
    ),
  )
