-- ===== src/Peg.antt =====
-- peg: the parser generator. Its runtime, which every generated parser carries, and its syntax tree.
pub mod Runtime
pub mod Ast
pub mod Builder
