-- ===== src/Rollover.antt =====
-- The year rollover: the service methods of app/domains/tenant/service.py and their repository
-- methods in app/domains/tenant/tenant_repository.py.
pub mod Plan
pub mod Service
pub mod Commit
pub mod Upsert
pub mod Recompute
pub mod Calendar
pub mod CommitRun
pub mod Turnover
pub mod Preview
pub mod Students
pub mod Classes
pub mod Placement
pub mod Stamps
mod Tests
