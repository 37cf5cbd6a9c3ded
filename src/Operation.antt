-- ===== src/Operation.antt =====
-- operations/: the durable operations of the control plane.
pub mod Json
pub mod Types
pub mod Payload
pub mod Store
pub mod Service
pub mod Moves
pub mod Claims
pub mod Races
pub mod Claimed
pub mod Effects
pub mod Footprint
pub mod Cancel
pub mod Recovery
pub mod Redacted
mod Tests
