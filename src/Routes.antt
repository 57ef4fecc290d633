-- ===== src/Routes.antt =====
-- The HTTP routes of the API: api/src/routes, and the error handler of api/src/index.ts.
pub mod Reply
pub mod Jobs
pub mod Metrics
pub mod Ready
