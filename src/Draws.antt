-- ===== src/Draws.antt =====
-- Lottery draws: apps/api/src/lottery-draws.
pub mod Types
pub mod SalesWindow
pub mod Service
pub mod Creation
pub mod Transitions
pub mod Publication
pub mod WeeklySales
pub mod Slots
pub mod Availability
pub mod Lifecycle
pub mod Runs
pub mod Commands
pub mod Earliest
pub mod Offers
pub mod Outbox
pub mod Notices
pub mod Tests
