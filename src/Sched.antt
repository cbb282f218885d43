-- ===== src/Sched.antt =====
-- agent/sched.c: the scheduler of an agent.
pub mod Time
pub mod Outcome
pub mod Perform
pub mod Job
pub mod Frame
pub mod Service
pub mod Kept
pub mod Finished
pub mod Along
pub mod Calls
pub mod Sequence
pub mod Room
pub mod Blocks
pub mod Users
pub mod Credit
pub mod Consume
pub mod Loop
