-- ===== src/Excerpt.antt =====
-- errors.go: `FormatError`.
pub mod Lines
pub mod Starts
pub mod Window
pub mod Shown
