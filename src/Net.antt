-- ===== src/Net.antt =====
-- agent/net.c: the network side of an agent.
pub mod Link
pub mod Handlers
pub mod Dispatch
pub mod Blocks
pub mod Receive
pub mod Connect
pub mod Loop
pub mod Start
pub mod Thread
pub mod Reconnect
pub mod Every
pub mod Framing
pub mod Quiet
pub mod Buffer
pub mod Session
pub mod Process
pub mod Untouched
pub mod Room
pub mod Distinct
pub mod Triggers
