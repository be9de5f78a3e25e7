-- ===== src/Bits.antt =====
-- The bit operations of the engine on unsigned words: `>>`, `<<`, `&`, `|` and `~`.
mod Step
pub mod Digit
pub mod Words
