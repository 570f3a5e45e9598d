-- ===== src/Jobs.antt =====
-- app/domain/jobs.py: the operations on jobs, in the child modules.
pub mod Settle
pub mod Create
pub mod View
pub mod Cancel
pub mod Listing
