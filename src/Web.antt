-- ===== src/Web.antt =====
-- app/web/connections.py: the pages for signing in and for connecting a provider.
pub mod Session
pub mod Login
pub mod OAuth
