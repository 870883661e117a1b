-- ===== src/Finance.antt =====
-- How a payment is divided: apps/api/src/finance/financial-allocation.service.ts.
pub mod Allocation
pub mod Shares
pub mod Postings
pub mod Tests
