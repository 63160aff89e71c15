-- ===== src/Bootstrap.antt =====
-- peg/bootstrap: the hand-written scanner and parser of grammar files.
pub mod Token
pub mod Scanner
pub mod Parser
pub mod Files
mod Samples
