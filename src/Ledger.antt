-- ===== src/Ledger.antt =====
-- The double-entry ledger: apps/api/src/ledger. `Types` has the rows and inputs, `Service` the
-- operations of LedgerService, `Integrity` the scan of LedgerIntegrityService; the other children
-- prove things of them.
pub mod Types
pub mod Service
pub mod Validation
pub mod Store
pub mod Append
pub mod Steps
pub mod Retry
pub mod Integrity
pub mod Defects
pub mod Audit
pub mod Tests
