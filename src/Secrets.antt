-- ===== src/Secrets.antt =====
-- app/secrets: texts that are credentials, and texts that name them.
pub mod Json
pub mod LiteralDetection
pub mod Resolver
pub mod Walk
pub mod Whitelist
