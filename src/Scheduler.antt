-- ===== src/Scheduler.antt =====
-- services/scheduler: which product is checked when.
pub mod Db
pub mod Snapshot
pub mod Dispatch
pub mod Force
pub mod Consumer
