-- ===== src/Obs.antt =====
-- app/obs/logging.py.
pub mod Redaction
pub mod Queue
