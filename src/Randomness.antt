-- ===== src/Randomness.antt =====
-- The randomness of a draw and its evidence: apps/api/src/randomness.
pub mod Provider
pub mod Evidence
pub mod Request
pub mod Selection
pub mod Outcomes
pub mod Tests
