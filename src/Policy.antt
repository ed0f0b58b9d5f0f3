-- ===== src/Policy.antt =====
-- policy/: who may run what, where and how often.
pub mod Roles
pub mod Snapshot
pub mod Load
pub mod Tracker
pub mod Service
mod Tests
