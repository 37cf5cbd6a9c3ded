-- ===== src/Idempotency.antt =====
-- The package idempotency and api/idempotency.py: mutations that run once under a key.
pub mod Types
pub mod Store
pub mod Service
pub mod Api
pub mod Rows
pub mod Reserve
pub mod Execute
pub mod Others
pub mod Repeat
pub mod Stale
pub mod Formed
mod Tests
