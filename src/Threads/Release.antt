-- ===== src/Threads/Release.antt =====
-- The release of an agent: its scheduler is stopped and joined, then its network thread, and then
-- the triggers are flushed.
pub mod Stopped
pub mod Placed
pub mod Ending
pub mod Bounded
