-- ===== src/Consumer/State.antt =====
-- src/order_service/consumer/state.py: the fold of an order, the protocol of the stores, and the
-- two stores. A method of a store acts on the store and on the trace of the process, whose producer
-- it shares.
mod Protocol
pub mod Record
pub mod Memory
pub mod Local
pub use Protocol.*
