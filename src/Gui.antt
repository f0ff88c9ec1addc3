-- ===== src/Gui.antt =====
-- src/droidcam.c: what the graphical client does on the user's actions. The widgets are the flags that
-- the code sets on them; their layout is left out.
pub mod State
pub mod Start
pub mod Events
pub mod Args
pub mod Handles
pub mod Threads
pub mod Outcome
pub mod Controls
pub mod Session
mod Tests
