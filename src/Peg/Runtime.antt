-- ===== src/Peg/Runtime.antt =====
-- peg/builder/static_code.go: the parser that every generated file carries.
pub mod Syntax
pub mod Errors
pub mod State
pub mod Matchers
pub mod Engine
pub mod Parse
pub mod Semantics
pub mod Frame
pub mod EndOfInput
pub mod Literals
mod Samples
