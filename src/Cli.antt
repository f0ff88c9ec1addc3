-- ===== src/Cli.antt =====
-- src/droidcam-cli.c: the arguments, the keys read from standard input, and what `main` starts.
pub mod Args
pub mod Keys
pub mod Start
pub mod End
mod Tests
