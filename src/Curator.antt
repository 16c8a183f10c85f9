-- ===== src/Curator.antt =====
-- curator/: what the service does with captured sessions.
pub mod RawSessions
pub mod Scheduler
pub mod Backlog
pub mod Worker
pub mod Extraction
pub mod Ingest
pub mod Prefilter
mod Examples
