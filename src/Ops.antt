-- ===== src/Ops.antt =====
-- ops/: the jobs that keep the database small.
pub mod Maintenance
mod Examples
