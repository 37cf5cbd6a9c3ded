-- ===== src/Manager.antt =====
-- changes/manager.py: the change of remote files with two backups, its failure and its rollback.
pub mod Types
pub mod Paths
pub mod Edits
pub mod Monad
pub mod Preflight
pub mod Backups
pub mod Replace
pub mod Restore
pub mod Apply
pub mod Rollback
pub mod Occurrences
pub mod Splices
pub mod Applied
pub mod Frames
pub mod Ends
pub mod Plan
pub mod Dicts
pub mod Backed
pub mod Saved
pub mod Left
pub mod Restored
pub mod Members
pub mod Replacing
pub mod Noted
pub mod Replaced
pub mod Moved
pub mod Temps
pub mod Atomic
pub mod Spares
pub mod Guards
pub mod Verified
pub mod Samples
pub mod SamplePlan
mod Tests
mod Runs
