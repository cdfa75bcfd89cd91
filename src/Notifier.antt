-- ===== src/Notifier.antt =====
-- services/notifier: the delivery of notifications to Telegram.
pub mod Alert
pub mod Consumer
