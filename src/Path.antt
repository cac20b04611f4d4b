-- ===== src/Path.antt =====
-- path.go: paths.
pub mod Expression
pub mod Read
pub mod Pointers
pub mod Written
pub mod Decimal
pub mod Trimmed
