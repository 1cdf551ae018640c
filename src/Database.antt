-- ===== src/Database.antt =====
-- The shared database package (database/src/pgs_db): its tables as lists of rows.
pub mod Accounts
pub mod Ingest
pub mod Queue
pub mod Pages
pub mod Discovery
pub mod Batch
