-- ===== src/Prizes.antt =====
-- The prize pool and its distribution: apps/api/src/prizes.
pub mod Distribution
pub mod Rounding
pub mod Calculation
pub mod Pool
pub mod Sums
pub mod Payments
pub mod Sources
pub mod Growth
pub mod Tests
pub mod PoolTests
