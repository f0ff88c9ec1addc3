-- ===== src/Settings.antt =====
-- src/settings.c: the settings file, as the bytes that `SaveSettings` writes and `LoadSettings` reads.
-- The file holds no NUL byte.
pub mod Defs
pub mod Lines
pub mod Load
pub mod Save
pub mod Fits
pub mod Fields
pub mod RoundTrip
pub mod Address
mod Tests
