-- ===== src/Ast.antt =====
-- node.go: the public syntax tree.
pub mod Public
pub mod Walk
pub mod File
pub mod Visits
pub mod Validated
pub mod Exact
pub mod Parsed
