-- ===== src/Rotation.antt =====
-- internal/rotation: the retention policy, and the rotation that it drives.
pub mod Policy
pub mod Gfs
