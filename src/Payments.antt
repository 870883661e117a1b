-- ===== src/Payments.antt =====
-- Payments and the purchases they pay for: apps/api/src/payments.
pub mod Tables
pub mod Bookings
pub mod Completed
pub mod Issuing
pub mod Confirmation
pub mod Parts
pub mod Issued
pub mod Soundness
pub mod Retries
pub mod Evidence
pub mod Again
pub mod Repetition
pub mod Tests
