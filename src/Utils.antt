-- ===== src/Utils.antt =====
-- src/utils: the helpers that the cogs share.
pub mod Cache
pub mod RateLimit
pub mod Roles
mod Tests
