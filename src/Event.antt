-- ===== src/Event.antt =====
-- Events: app/domains/events/service.py and the workflow part of app/domains/tenant/service.py.
pub mod Permission
pub mod Workflow
pub mod Delivery
pub mod Notices
pub mod Guards
pub mod Steps
pub mod Lifecycle
pub mod Publication
pub mod Rights
pub mod Resources
mod Tests
