-- ===== src/Encoder.antt =====
-- encode.go and format.go: the writer of syntax trees.
pub mod Options
pub mod Quote
pub mod Comments
pub mod Values
pub mod Format
pub mod Unquoted
pub mod Spelled
pub mod ReadBack
pub mod Inline
pub mod Forms
