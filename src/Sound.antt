-- ===== src/Sound.antt =====
-- src/decoder_snd.c: opening the loopback sound device and moving samples into its ring buffer.
-- What ALSA answers is an argument of each function.
pub mod Params
pub mod Recovery
pub mod Transfer
pub mod Find
mod Tests
