-- ===== src/Workers.antt =====
-- The worker that moves draws on: apps/api/src/workers.
pub mod Lifecycle
pub mod Queue
pub mod Progress
pub mod Review
pub mod Tests
