-- ===== src/Gateway.antt =====
-- services/gateway: the REST API, its store and its results consumer.
pub mod Db
pub mod Alerts
pub mod Results
pub mod Monitoring
pub mod Subscriptions
pub mod Store
pub mod Handler
pub mod Consumer
pub mod Cleaner
