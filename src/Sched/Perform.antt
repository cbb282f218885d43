-- ===== src/Sched/Perform.antt =====
-- agent/sched.c, lines 24 to 605: what the scheduler does for each type of task.
mod Radio
mod Slice
unfoldable pub use Radio.*
unfoldable pub use Slice.*
