-- ===== src/Overload.antt =====
-- app/overload: shedding and capping the load.
pub mod Health
pub mod Limiter
