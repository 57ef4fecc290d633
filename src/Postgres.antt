-- ===== src/Postgres.antt =====
-- api/src/services/postgres.ts.
pub mod Row
pub mod Table
pub mod Session
pub mod Jobs
pub mod Listing
pub mod Logs
pub mod Metrics
pub mod Average
pub mod Throughput
pub mod Active
pub mod Update
pub mod Kept
