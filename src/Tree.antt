-- ===== src/Tree.antt =====
-- node.go: the syntax tree. `Tree` is a node with what it carries; the parser's `node` and the
-- exported `Node` carry the records of child modules. A child is never a nil pointer.
pub mod Shape
pub mod Internal
pub mod Valid
