-- ===== src/Scanner.antt =====
-- scanner.go: the tokens of a JSONC text.
pub mod Cursor
pub mod Comments
pub mod Strings
pub mod Grammar
pub mod Accepted
pub mod Numbers
pub mod Next
pub mod Extent
pub mod Progress
pub mod Positions
