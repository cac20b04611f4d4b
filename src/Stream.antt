-- ===== src/Stream.antt =====
-- unmarshal.go: the streaming `Decoder`.
pub mod State
pub mod Steps
pub mod Sound
pub mod Calls
pub mod Sticky
