-- ===== src/Tickets.antt =====
-- Ticket numbers: apps/api/src/tickets.
pub mod Allocation
pub mod Sequence
pub mod Reserving
pub mod Ranges
pub mod Tests
