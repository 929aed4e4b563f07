-- ===== src/Enrollment.antt =====
-- Enrollments and payments: the service methods of app/domains/tenant/service.py and the decisions
-- that app/domains/students/router.py and app/domains/events/router.py take before they call them.
pub mod Rows
pub mod Service
pub mod Approval
pub mod Decisions
pub mod CancelSteps
pub mod Cancellation
pub mod Counts
pub mod Uniqueness
pub mod Payment
pub mod Consent
mod Tests
