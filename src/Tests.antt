-- ===== src/Tests.antt =====
-- Examples of the theorems at concrete data.
mod Data
mod Rotation
mod Retry
mod Config
mod Storage
mod Engine
mod Run
mod Restore
mod Endpoints
mod History
mod Bucket
mod Drivers
mod Status
mod McpTools
mod Commands
mod Threads
