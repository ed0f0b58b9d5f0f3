-- ===== src/Watchers.antt =====
-- watchers/: what reads every chat line of a channel and reports what it makes of it.
pub mod Pyramid
