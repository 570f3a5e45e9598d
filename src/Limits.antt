-- ===== src/Limits.antt =====
-- What `task.create` asks before a job is created.
pub mod Containment
pub mod RateLimit
