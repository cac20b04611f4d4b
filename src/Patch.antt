-- ===== src/Patch.antt =====
-- patch.go: the operations of JSON Patch that change one place of the tree.
pub mod Edit
pub mod Added
pub mod Replace
pub mod Replaced
pub mod Copy
pub mod Numbers
pub mod Equal
pub mod Move
pub mod Apply
pub mod Removed
pub mod Moved
pub mod Applied
pub mod Denotes
pub mod SameNumber
pub mod Tested
