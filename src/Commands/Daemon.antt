-- ===== src/Commands/Daemon.antt =====
-- The daemon of cmd/datasaver/main.go: its base URL, the routes of its two servers and its start.
use datasaver.Base.{
  Str, bytes, List, [], ◌∷◌, ◌++◌, map, none, some, if◌then◌else◌, Result, ok, err,
}
use datasaver.Base.Decimal.{decimal}
use datasaver.Clock.{Time}
use datasaver.Config.{Config, is_empty}
use datasaver.Config.Env.{Env}
use datasaver.Mcp.Auth
use datasaver.Mcp.Auth.{Authenticator, Answer, unauthorized, auth_middleware, enabled}
use datasaver.Mcp.Oauth
use datasaver.Mcp.Oauth.{
  Response, resource, server, answer, resource_metadata, server_metadata, resource_path, routes,
}
use datasaver.Scheduler.{Cron, Scheduler, new_scheduler, start}

unfoldable pub base_url : Env → Config → Str
base_url env cfg =
    let env_url = env (bytes "DATASAVER_BASE_URL") in
    if is_empty env_url
    then bytes "http://localhost:" ++ decimal cfg.monitoring.health_port
    else env_url

unfoldable pub health_addr : Config → Str
health_addr cfg = bytes ":" ++ decimal cfg.monitoring.health_port

unfoldable pub metrics_addr : Config → Str
metrics_addr cfg = bytes ":" ++ decimal cfg.monitoring.metrics_port

-- What the health server routes a request to. The handlers of /mcp and of the discovery endpoints
-- are for the base URL.
pub data Route : Type 0 where
  metrics : Route
  health : Route
  oauth : (Str → Response) → Route
  mcp : Auth.Handler → Route

unfoldable pub health_routes : Env → Config → Authenticator → List (Str × Route)
unfolding routes base_url enabled
health_routes env cfg a =
    let base = base_url env cfg in
    (bytes "/metrics", metrics)
    ∷ (bytes "/health", health)
    ∷ (map (λ (pattern, handle). (pattern, oauth handle)) (routes (Oauth.new_handler base))
        ++ (if enabled a then (bytes "/mcp", mcp (Auth.new_handler a base)) ∷ [] else []))

-- The start of the daemon: the error of the scheduler, or the scheduler that runs.
unfoldable pub start_daemon : Cron → Time → Config → Result Str Scheduler
start_daemon c now cfg =
    let (refused, s) = start c now (new_scheduler cfg.schedule) in
    elim refused [ some e ↦ err (bytes "failed to start scheduler: " ++ e) | none ↦ ok s ]
