-- ===== src/Connections.antt =====
-- app/connections and app/crypto: the OAuth tokens of the users.
pub mod KmsEnvelope
pub mod Store
pub mod Preflight
pub mod RoundTrip
pub mod Scope
