-- ===== src/Cogs.antt =====
-- src/cogs: the features of the bot.
pub mod Levels
pub mod Automod
pub mod Moderation
pub mod Prefixes
pub mod Tags
mod Tests
