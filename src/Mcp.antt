-- ===== src/Mcp.antt =====
-- app/mcp: what the transport layer adds to the operations on jobs.
pub mod Envelope
pub mod Handlers
pub mod Resources
pub mod StatusMapping
pub mod TaskCreate
