-- ===== src/Pointer.antt =====
-- path.go and patch.go: JSON Pointers.
pub mod Tokens
pub mod Escapes
pub mod Resolve
