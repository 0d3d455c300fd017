-- ===== src/Tagscript.antt =====
-- src/tagscript: the template engine of tags, welcomes and goodbyes.
pub mod Host
pub mod Context
pub mod Lexer
pub mod Blocks
pub mod Dispatch
pub mod Engine
mod Tests
