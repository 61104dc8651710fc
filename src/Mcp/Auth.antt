-- ===== src/Mcp/Auth.antt =====
-- internal/mcp/mcpauth/auth.go, and the middleware of internal/mcp/handler.go that calls it.
pub mod Access
use datasaver.Base.{
  Bool, true, false, not, ◌||◌, Str, bytes, List, [], ◌∷◌, ◌++◌, Option, none, some, if◌then◌else◌,
  str_eq, has_prefix, trim_prefix, trim_suffix, Result, ok, err,
}
use datasaver.Config.{is_empty}

pub record TokenInfo : Type 0 where
  pub auth_mode : Str
  pub scopes : List Str

pub record Authenticator : Type 0 where
  pub api_key : Str
  pub api_key_hash : Str

-- auth.ErrInvalidToken
pub data AuthError : Type 0 where
  invalid_token : AuthError

-- `hash` is HashToken: SHA-256 in hexadecimal.
unfoldable pub new_authenticator : (Str → Str) → Str → Authenticator
new_authenticator hash api_key = record {
  api_key = api_key;
  api_key_hash = (if is_empty api_key then [] else hash api_key);
}

unfoldable pub enabled : Authenticator → Bool
enabled a = not (is_empty a.api_key)

abbrev pub full_access : TokenInfo
full_access = record { auth_mode = bytes "api_key"; scopes = bytes "mcp:full" ∷ [] }

-- subtle.ConstantTimeCompare gives 1 exactly on equal bytes.
unfoldable pub verify_api_key : Authenticator → Str → Result AuthError TokenInfo
verify_api_key a key =
    if is_empty a.api_key
    then err invalid_token
    else if not (str_eq key a.api_key)
    then err invalid_token
    else ok full_access

abbrev pub bearer : Str
bearer = bytes "Bearer "

unfoldable pub validate_auth_header : Authenticator → Str → Result AuthError TokenInfo
unfolding verify_api_key
validate_auth_header a header =
    if is_empty header || not (has_prefix header bearer)
    then err invalid_token
    else if is_empty (trim_prefix header bearer)
    then err invalid_token
    else verify_api_key a (trim_prefix header bearer)

-- The response of the middleware, or the token with which the next handler is called.
pub data Answer : Type 0 where
  service_unavailable : Str → Answer
  unauthorized : (www_authenticate body : Str) → Answer
  next : TokenInfo → Answer

pub record Handler : Type 0 where
  pub authenticator : Authenticator
  pub resource_meta_url : Str

unfoldable pub new_handler : Authenticator → Str → Handler
new_handler a base_url = record {
  authenticator = a;
  resource_meta_url =
      trim_suffix base_url (bytes "/") ++ bytes "/.well-known/oauth-protected-resource";
}

-- The text `Bearer resource_metadata="…", scope="mcp:full"`; byte 34 is the quotation mark.
unfoldable pub write_unauthorized : Handler → Answer
write_unauthorized h =
    unauthorized
      (bytes "Bearer resource_metadata="
        ++ (34 ∷ h.resource_meta_url)
        ++ (34 ∷ bytes ", scope=")
        ++ (34 ∷ bytes "mcp:full")
        ++ (34 ∷ []))
      (bytes "Unauthorized")

unfoldable pub auth_middleware : Handler → Str → Answer
unfolding verify_api_key enabled write_unauthorized
auth_middleware h header =
    if not (enabled h.authenticator)
    then service_unavailable (bytes "MCP endpoint not configured")
    else if is_empty header || not (has_prefix header bearer)
    then write_unauthorized h
    else if is_empty (trim_prefix header bearer)
    then write_unauthorized h
    else elim (verify_api_key h.authenticator (trim_prefix header bearer)) [
      | err e ↦ write_unauthorized h
      | ok info ↦ next info
    ]
