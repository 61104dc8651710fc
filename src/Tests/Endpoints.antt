-- ===== src/Tests/Endpoints.antt =====
-- Examples of the theorems on the MCP endpoint and on the scheduler.
use datasaver.Base.{Str, bytes, [], ◌++◌, none, some, ◌≡◌, ◌≢◌, refl, ◌↔◌}
use datasaver.Mcp.Auth.{Handler, full_access, bearer, next, auth_middleware}
use datasaver.Mcp.Auth.Access.{auth_middleware_iff}
use datasaver.Scheduler.{Cron, Scheduler, new_scheduler, start, stop}
use datasaver.Scheduler.Life.{
  here, later, starts, stops, IsSound, new_scheduler-Reach-IsSound, start_refused,
}
use datasaver.Tests.Data.{day_time}

abbrev handler : Handler
handler = record {
  authenticator = record { api_key = bytes "key"; api_key_hash = [] };
  resource_meta_url = bytes "http://localhost";
}

auth_middleware_iff_example :
    (auth_middleware handler (bytes "Bearer key") ≡ next full_access)
    ↔ ((bytes "key" ≢ []) × (bytes "Bearer key" ≡ bearer ++ bytes "key"))
auth_middleware_iff_example = auth_middleware_iff handler (bytes "Bearer key")

abbrev every_day : Str
every_day = bytes "0 2 * * *"

abbrev cron : Cron
cron = record { parse = λ schedule. none; next = λ schedule now. record now { ahead = 0 } }

abbrev strict : Cron
strict = record cron { parse = λ schedule. some (bytes "bad schedule") }

abbrev begun : Scheduler
begun = (start cron (day_time 1) (new_scheduler every_day)).1

new_scheduler-Reach-IsSound_example : IsSound (stop cron begun)
new_scheduler-Reach-IsSound_example =
    new_scheduler-Reach-IsSound cron every_day (stop cron begun)
      (later (later here (starts (day_time 1) (new_scheduler every_day))) (stops begun))

start_refused_example :
    ((start strict (day_time 1) (new_scheduler every_day)).0 ≡ some (bytes "bad schedule"))
    × ((start strict (day_time 2) (start strict (day_time 1) (new_scheduler every_day)).1).0 ≡ none)
    × ((start strict (day_time 2) (start strict (day_time 1) (new_scheduler every_day)).1).1.entries
        ≡ [])
start_refused_example =
    start_refused strict every_day (bytes "bad schedule") (day_time 1) (day_time 2) refl
