-- ===== src/Event/Resources.antt =====
-- The resources of an event and their costs: the queries, the calls of the services and the router,
-- the invariant of the costs, and what the calls do to the lines of an event.
pub mod Rows
pub mod Calls
pub mod Endpoints
pub mod Exact
pub mod Priced
pub mod Repriced
pub mod Kept
pub mod Edited
pub mod Costs
pub mod Replaced
pub mod Summary
mod Tests
