-- ===== src/Producer.antt =====
-- The order service: src/order_service/producer.
pub mod Orders
pub mod Kafka
pub mod Routes
pub mod App
