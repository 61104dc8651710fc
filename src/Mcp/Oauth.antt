-- ===== src/Mcp/Oauth.antt =====
-- internal/mcp/oauth: the discovery endpoints for OAuth.
use datasaver.Base.{ℕ, Str, bytes, List, [], ◌∷◌, ◌++◌, if◌then◌else◌, str_eq, trim_suffix}

pub record ProtectedResourceMetadata : Type 0 where
  pub resource : Str
  pub authorization_servers : List Str
  pub scopes_supported : List Str
  pub bearer_methods_supported : List Str

pub record AuthorizationServerMetadata : Type 0 where
  pub issuer : Str
  pub token_endpoint : Str
  pub scopes_supported : List Str
  pub response_types_supported : List Str
  pub grant_types_supported : List Str
  pub token_endpoint_auth_methods_supported : List Str

pub record Handler : Type 0 where
  pub base_url : Str

unfoldable pub new_handler : Str → Handler
new_handler base_url = record { base_url = trim_suffix base_url (bytes "/") }

-- The value that is encoded as the body of a response.
pub data Body : Type 0 where
  empty : Body
  resource : ProtectedResourceMetadata → Body
  server : AuthorizationServerMetadata → Body

pub record Response : Type 0 where
  pub status : ℕ
  pub headers : List (Str × Str)
  pub body : Body

unfoldable pub cors_headers : List (Str × Str)
cors_headers =
    (bytes "Access-Control-Allow-Origin", bytes "*")
    ∷ (bytes "Access-Control-Allow-Methods", bytes "GET, POST, OPTIONS")
    ∷ (bytes "Access-Control-Allow-Headers", bytes "Content-Type, Authorization")
    ∷ (bytes "Access-Control-Max-Age", bytes "86400")
    ∷ []

abbrev pub json_headers : List (Str × Str)
json_headers =
    (bytes "Content-Type", bytes "application/json")
    ∷ (bytes "Cache-Control", bytes "no-store, no-cache, must-revalidate")
    ∷ []

abbrev pub preflight : Response
preflight = record { status = 200; headers = cors_headers; body = empty }

abbrev pub answer : Body → Response
answer body = record { status = 200; headers = cors_headers ++ json_headers; body = body }

unfoldable pub resource_metadata : Handler → ProtectedResourceMetadata
resource_metadata h = record {
  resource = h.base_url ++ bytes "/mcp";
  authorization_servers = h.base_url ∷ [];
  scopes_supported = bytes "mcp:full" ∷ [];
  bearer_methods_supported = bytes "header" ∷ [];
}

unfoldable pub server_metadata : Handler → AuthorizationServerMetadata
server_metadata h = record {
  issuer = h.base_url;
  token_endpoint = h.base_url ++ bytes "/oauth/token";
  scopes_supported = bytes "mcp:full" ∷ [];
  response_types_supported = [];
  grant_types_supported = [];
  token_endpoint_auth_methods_supported = bytes "bearer" ∷ [];
}

unfoldable pub handle_protected_resource_metadata : Handler → Str → Response
unfolding resource_metadata
handle_protected_resource_metadata h method =
    if str_eq method (bytes "OPTIONS") then preflight else answer (resource (resource_metadata h))

unfoldable pub handle_auth_server_metadata : Handler → Str → Response
unfolding server_metadata
handle_auth_server_metadata h method =
    if str_eq method (bytes "OPTIONS") then preflight else answer (server (server_metadata h))

abbrev pub resource_path : Str
resource_path = bytes "/.well-known/oauth-protected-resource"

abbrev pub server_path : Str
server_path = bytes "/.well-known/oauth-authorization-server"

-- The patterns that RegisterRoutes gives to the mux, each with its handler.
unfoldable pub routes : Handler → List (Str × (Str → Response))
routes h =
    (bytes "GET " ++ resource_path, handle_protected_resource_metadata h)
    ∷ (bytes "GET " ++ server_path, handle_auth_server_metadata h)
    ∷ []
