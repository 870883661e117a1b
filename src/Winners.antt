-- ===== src/Winners.antt =====
-- The selection of winners from verified randomness: apps/api/src/winners.
pub mod Selection
pub mod Tables
pub mod Recognition
pub mod Existing
pub mod Evidence
pub mod Finalizer
pub mod Completion
pub mod Ranking
pub mod Results
pub mod Repetition
pub mod Money
pub mod Claimed
pub mod Settlement
pub mod Collecting
pub mod Order
pub mod FinalizerTests
pub mod Tests
