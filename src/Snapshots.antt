-- ===== src/Snapshots.antt =====
-- Ticket snapshots and their cryptographic commitment: apps/api/src/snapshots.
pub mod Cryptography
pub mod Encoding
pub mod Levels
pub mod Proofs
pub mod Completeness
pub mod Climbs
pub mod Binding
pub mod Finalizer
pub mod Builder
pub mod Numbering
pub mod Building
pub mod Handover
pub mod Finalization
pub mod Rows
pub mod Repetition
pub mod FinalizerTests
pub mod HandoverTests
pub mod Tests
