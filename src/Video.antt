-- ===== src/Video.antt =====
-- The video side of src/decoder.c: flips, buffer layout, and the decoding of one frame.
pub mod Flip
pub mod Decoder
pub mod Prepare
pub mod Planes
pub mod Layout
pub mod Memory
pub mod Freed
pub mod TestImage
pub mod Process
pub mod Receive
mod Tests
