-- ===== src/Events.antt =====
-- events/: the append-only log of runtime events and the queues of its subscribers.
pub mod Types
pub mod Store
pub mod Order
pub mod Rows
pub mod Pages
pub mod Broker
mod Tests
