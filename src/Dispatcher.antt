-- ===== src/Dispatcher.antt =====
-- operations/dispatcher.py: the workers that claim and run the durable operations.
pub mod State
pub mod Select
pub mod Finish
pub mod Serial
pub mod Releases
pub mod Rounds
pub mod Reach
pub mod Ends
pub mod Step
pub mod Sweep
mod Tests
pub mod Begin
