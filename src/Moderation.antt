-- ===== src/Moderation.antt =====
-- moderation/: what moderators took away, and what the bot takes away itself.
pub mod Index
pub mod Automod
