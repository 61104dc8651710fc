-- ===== src/Lib.antt =====
-- datasaver takes backups of PostgreSQL and SQLite databases on a schedule, stores them on a local
-- disk or in S3, deletes old ones by a grandfather-father-son rule, checks and restores them, and
-- serves an authenticated MCP endpoint. This library models its Go code and proves what makes its
-- parts correct.
--
-- How the parts interact, and which file models which part:
--   Config, Config/Env      internal/config/config.go: the defaults, the file, the environment, validate
--   Driver                  pkg/database: NewDriver and the constructors of the drivers
--   Driver/Postgres         pkg/database/postgres.go: the connection string, pg_dump and pg_restore
--   Driver/Sqlite           pkg/database/sqlite.go: sqlite3, and the files that are moved
--   Driver/Programs         the programs and the SQL connections that the drivers call
--   Connection              pkg/postgres/connection.go: a SQL client, and pg_dump and pg_restore by options
--   Clock, Clock/Civil      the parts of Go's package time that the code calls
--   Clock/Format            the layouts that times are printed in
--   Metadata                pkg/postgres/metadata.go: the metadata of a backup and its ID
--   Rotation/Policy, /Gfs   internal/rotation: the classes of a backup, retention dates, and
--                           DetermineBackupsToDelete with its two loops
--   Storage                 internal/storage/interface.go: the Backend interface and the factory
--   Storage/Disk, /Local    internal/storage/local.go over the calls of package os
--   Storage/S3              internal/storage/s3.go over the calls of minio
--   Storage/Laws            what the clients of a backend rely on: a map from paths to contents, and
--                           a List that shows it
--   Storage/Calls           the calls that change a backend, one by one
--   Validator               internal/backup/validator.go: Validate and VerifyRestoreIntegrity
--   Notify                  internal/notify/webhook.go: the payloads of the webhook and their requests
--   Engine, Engine/Run      internal/backup/engine.go: Run, Cleanup, ListBackups, GetBackup
--   Engine/History          runs and cleanups that follow each other, as steps
--   Engine/Sparing          which backups a cleanup spares
--   Engine/Interleaved      the calls of a run, among those of a cleanup, and cut off
--   Engine/Overlap          runs and cleanups on threads that overlap, and that may be killed
--   Engine/Validated        Validate on what a run has stored
--   Engine/Verified         the verification at the end of a run, with Engine/Flagged
--   Files                   pkg/postgres/metadata.go, internal/backup: checksums and gzip on one file
--   Files/Truncated         a run whose gzip writer cannot be closed
--   Retry                   internal/backup/retry.go: WithRetry, isRetryable, contains
--   Scheduler               internal/backup/scheduler.go: Start, Stop and the end of a backup
--   Scheduler/Daily         internal/backup/scheduler.go: runBackup, the run with its cleanup
--   Scheduler/Threads       internal/backup/scheduler.go: Stop, jobs and readers that share the mutex
--   Restore                 internal/restore/engine.go: Restore and parseConnectionInfo
--   Roundtrip               a run of the engine, later runs and cleanups, and a restore of its backup
--   Roundtrip/Overlapping   the same where other runs and cleanups overlap the run
--   Mcp/Auth                internal/mcp/mcpauth/auth.go and the middleware of internal/mcp/handler.go
--   Mcp/Outputs             internal/mcp/tools/backup.go: the outputs of the tools
--   Mcp/Tools               internal/mcp/tools/backup.go: the tools over the engine of a request
--   Mcp/Registry            internal/mcp/tools/registry.go: the tools by their names
--   Mcp/Oauth               internal/mcp/oauth: the discovery documents and their routes
--   Metrics                 internal/metrics/prometheus.go: the instruments and what they record
--   Status                  cmd/datasaver/main.go: the status of the backups, the health endpoint, a tick
--                           of the alert monitor, printed sizes
--   Commands                cmd/datasaver/main.go: what the commands print
--   Commands/Setup, /Daemon cmd/datasaver/main.go: what comes before a command; the routes of the daemon
--   Commands/Discovery      the discovery endpoints behind the mux of the daemon
--   Commands/Monitor        cmd/datasaver/main.go: the loop of the alert monitor
--   Commands/Shutdown       cmd/datasaver/main.go: from the signal to the return of the daemon
--   Base                    strings as bytes, int64 with its wrap-around, results, sorting, counting,
--                           decimal and hexadecimal numbers, URL escaping
--   Tests                   the theorems at concrete data
--
-- A run of the engine loads its driver from the configuration, dumps, compresses, stores the file and
-- its metadata through the Backend interface, verifies what it stored and posts to the webhook. The
-- scheduler runs it and then Cleanup, which lists the metadata in the storage and lets the rotation
-- choose. Restore and Validate read the same storage. The commands and the tools of the MCP server call
-- the engine, Restore and Validate and print or return what they give; a tool works on an engine of its
-- own. The engine, Restore and Validate are functions of any Backend with a state; theorems about them
-- take the laws of Storage/Laws, which both backends meet.
--
-- A Go error is a `Result`, a nil error that comes beside a value is `none`. A type of the state that a
-- handler changes is passed through and given back. Loops over slices are structural recursion.
-- WithRetry recurses on the number of attempts that are left, at the start all of MaxAttempts, so that
-- it ends without fuel. An int, an int64 and a time.Duration are integers, wrapped to 64 bits where
-- sizes are added and where the maximum age and the alert duration are multiplied. A float64 of a size
-- is rounded to the next number that it can hold; the search for the distance of these numbers has fuel
-- for 11 doublings, and a size below 2^63 needs 10. A Go string is its list of bytes.
--
-- Parameters, because their code is not part of the repository: encoding/json, YAML, gzip, SHA-256,
-- net/url, path/filepath, database/sql, the programs pg_dump, pg_restore and sqlite3, minio, the
-- cron library, http.ServeMux, the multiplication of a wait by a float, the clock, and sort.Slice as
-- any sorter that meets the laws of Base/Sorting. url.QueryEscape and the reading of a password in a
-- URL are written out as their documents say, for the theorem on passwords. A reader gives all of
-- its bytes or fails at the first one; a copy that fails writes nothing, except in Storage/Local and
-- Files, where it leaves a part.
--
-- Assumed: zones have a fixed offset, times are not before year 1 and years have at most four
-- digits; strings.ToLower and strings.Fields meet ASCII only; the disk has the same faults
-- throughout one call; one goroutine at a time works on a registry and on the fields of an engine.
-- Storage is shared: in Engine/Overlap every call of a thread that changes it is a step of its own,
-- and so is a whole listing by a cleanup. The threads of the scheduler take one step at a time
-- between their mutex operations. DurationSeconds stands for the duration in nanoseconds that it is
-- computed from.
--
-- Not modelled: the flags of the command line, the servers that listen and the ticker of the alert
-- monitor, which are calls of libraries; the registration of the Prometheus metrics; the MCP library
-- and the JSON of the outputs; logging; tokens in the context of a request. They are output or calls
-- of what is not part of the repository.
pub mod Base
pub mod Clock
pub mod Metadata
pub mod Rotation
pub mod Retry
pub mod Config
pub mod Storage
pub mod Driver
pub mod Connection
pub mod Notify
pub mod Validator
pub mod Files
pub mod Engine
pub mod Restore
pub mod Roundtrip
pub mod Status
pub mod Commands
pub mod Metrics
pub mod Mcp
pub mod Scheduler
pub mod Tests
