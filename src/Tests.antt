-- ===== src/Tests.antt =====
-- Runs of the models on small inputs.
pub mod Samples
pub mod Results
pub mod Sync
pub mod Dispatch
pub mod Delivery
pub mod Routes
pub mod Tasks
pub mod Publishing
pub mod Dialog
pub mod Updates
pub mod Pages
