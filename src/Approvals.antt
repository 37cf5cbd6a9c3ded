-- ===== src/Approvals.antt =====
-- approvals/: the requests that a person decides once, and that are used once.
pub mod Types
pub mod Store
pub mod Decisions
pub mod Service
pub mod Token
pub mod Moves
pub mod Updates
pub mod Refines
pub mod Once
pub mod Exact
pub mod Reads
mod Tests
