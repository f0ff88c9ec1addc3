-- ===== src/Audio.antt =====
-- The audio thread of src/av.c: where a packet of samples starts, what is decoded into the sample
-- buffer, and what is played from it.
pub mod Decode
pub mod Play
pub mod Setup
pub mod Udp
pub mod Thread
pub mod Kept
pub mod Loop
pub mod Closed
pub mod Ending
mod Tests
