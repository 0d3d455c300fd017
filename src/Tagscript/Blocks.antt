-- ===== src/Tagscript/Blocks.antt =====
-- src/tagscript/blocks.rs: the blocks of the template language.
pub mod Verbatim
pub mod Split
pub mod Random
pub mod Url
pub mod Numbers
pub mod Conditions
pub mod Math
pub mod Range
pub mod Effects
pub mod Time
