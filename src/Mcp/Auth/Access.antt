-- ===== src/Mcp/Auth/Access.antt =====
-- Who passes the middleware of internal/mcp/handler.go.
use datasaver.Base.{
  Str, [], ◌++◌, str_eq_iff, str_eq_refl, has_prefix-append, trim_prefix, trim_prefix-append,
  drop_prefix, append-drop_prefix, ◌≡◌, ◌≢◌, ◌↔◌, arith,
}
use datasaver.Mcp.Auth.{TokenInfo, full_access, bearer, next, Handler, auth_middleware}

module _ (h : Handler) (header : Str) where
  abbrev key : Str
  key = h.authenticator.api_key

  passes_with_key : key ≢ [] → header ≡ bearer ++ key → auth_middleware h header ≡ next full_access
  unfolding auth_middleware
  passes_with_key some_key e =
      rw (e, has_prefix-append bearer key, trim_prefix-append bearer key, str_eq_refl key)
        (ground arith)

  key_of_passing :
      (info : TokenInfo)
      → auth_middleware h header ≡ next info
      → (key ≢ []) × (header ≡ bearer ++ key)
  unfolding auth_middleware trim_prefix
  key_of_passing info passed = (
    λ empty. ground (arith, empty),
    ground (arith, append-drop_prefix header bearer, str_eq_iff (drop_prefix header bearer) key),
  )

  -- A request passes with the token of full access exactly if there is an API key and the header is
  -- "Bearer " and that key.
  pub auth_middleware_iff :
      (auth_middleware h header ≡ next full_access) ↔ ((key ≢ []) × (header ≡ bearer ++ key))
  auth_middleware_iff = (key_of_passing full_access, λ (some_key, e). passes_with_key some_key e)
