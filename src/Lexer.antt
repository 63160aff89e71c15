-- ===== src/Lexer.antt =====
-- parser/lexer: a lexer of runes that is driven by state functions.
pub mod Scan
pub mod Predicates
pub mod Run
pub mod Json
mod Samples
