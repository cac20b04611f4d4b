-- ===== src/Strings.antt =====
-- strings.go: unescaping of quoted strings, over UTF-8 and UTF-16.
pub mod Utf8
pub mod Unquote
pub mod Total
pub mod Runes
pub mod Reference
