-- ===== src/Changes.antt =====
-- changes/: the journal of change sets and the order of their states.
pub mod Types
pub mod Store
pub mod Files
pub mod Life
pub mod Moves
pub mod Reads
mod Tests
pub mod Vault
pub mod Segments
pub mod Backups
