-- ===== src/Tests.antt =====
-- Concrete instances of the parameters, and each result at a concrete input.
mod Examples
mod Live
mod Metrics
mod Dashboard
mod Update
mod Panels
mod Process
mod Service
mod Charts
mod Client
mod Store
mod Samples
