-- ===== src/Guard.antt =====
-- investigation/guard.py, the types of investigation/types.py that it reads, and what
-- investigation/orchestrator.py makes of its reasons.
pub mod Types
pub mod Checks
pub mod Reasons
pub mod Admits
pub mod Citations
pub mod Refusals
mod Tests
