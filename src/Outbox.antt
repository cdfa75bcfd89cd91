-- ===== src/Outbox.antt =====
-- The durable outboxes of the gateway and the scheduler, and the worker that empties them.
pub mod Table
pub mod Lease
pub mod Worker
