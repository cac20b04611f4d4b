-- ===== src/Tags.antt =====
-- tags.go: the tags of struct fields.
pub mod Fields
pub mod Merged
