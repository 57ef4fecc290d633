-- ===== src/Dashboard.antt =====
-- The dashboard: dashboard/src.
pub mod Live
pub mod Paging
pub mod JobTable
pub mod Client
pub mod Charts
pub mod Pages
pub mod DeadLetterPanel
