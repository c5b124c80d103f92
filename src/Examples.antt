-- ===== src/Examples.antt =====
-- Tests and instances: concrete services, kept in lists, and each result at a concrete request.
pub mod Memory
mod Sessions
mod Accounts
mod Access
mod Operations
mod Outcomes
mod Attempts
mod Endings
mod Replay
mod Http
