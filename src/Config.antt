-- ===== src/Config.antt =====
-- app/config/: cron expressions and time zones.
pub mod Cron
pub mod Timezone
