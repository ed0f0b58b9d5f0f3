-- ===== src/Triggers.antt =====
-- triggers/: expressions that a channel runs when something happens.
pub mod Cron
pub mod Service
pub mod Runner
pub mod Timers
pub mod Samples
