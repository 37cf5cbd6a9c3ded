-- ===== src/Policy.antt =====
-- remote_ops/policy.py: which remote paths, operations and shell commands are let through.
pub mod Paths
pub mod Same
pub mod Contained
pub mod Shlex
pub mod Parse
pub mod Reads
pub mod Find
pub mod Command
pub mod Operations
pub mod Forbidden
mod Tests
