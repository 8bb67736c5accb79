-- ===== src/Consumer.antt =====
-- The consumer services: src/order_service/consumer.
pub mod Broker
pub mod Errors
pub mod Dlq
pub mod State
pub mod Transactions
pub mod Folding
pub mod Failures
pub mod Group
pub mod Runtime
pub mod RetryWorker
pub mod Services
pub mod Main
pub mod Projection
pub mod Tests
