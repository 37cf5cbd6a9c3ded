-- ===== src/Machine.antt =====
-- investigation/state_machine.py and operations/state_machine.py: statuses, the generic machine,
-- the five machines, and what holds of them.
pub mod Status
pub mod Core
pub mod Tables
pub mod Absorbing
pub mod Guard
pub mod Reach
mod Tests
