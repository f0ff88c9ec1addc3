-- ===== src/Device.antt =====
-- src/decoder_v4l2.c: finding and setting up the video device, and the start and end of the decoder
-- in src/decoder.c. What the system calls answer is an argument of each function.
pub mod Open
pub mod Control
pub mod Query
pub mod Init
pub mod Fini
mod Tests
