-- ===== src/Parser.antt =====
-- parser.go: the recursive-descent parser.
pub mod State
pub mod Comments
pub mod Members
pub mod Values
pub mod Frame
pub mod CommentFrame
pub mod Step
pub mod ValueSound
pub mod Touch
pub mod ContainerSound
pub mod ObjectState
pub mod ObjectSound
pub mod ObjectLoop
pub mod ArraySound
pub mod Containers
pub mod Objects
pub mod Arrays
pub mod AnyValue
pub mod Document
pub mod ArrayLoop
pub mod ValueLoop
pub mod RootSound
pub mod Correct
