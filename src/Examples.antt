-- ===== src/Examples.antt =====
-- A concrete platform, and the theorems at inputs where their hypotheses hold.
mod Demo
mod Scheduler
mod Network
mod Connection
mod Triggers
mod Api
mod Library
mod Threads
mod Life
mod Reports
mod Race
mod Lines
mod Interleaving
mod Release
mod Agents
