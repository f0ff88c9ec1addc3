-- ===== src/Stream.antt =====
-- `VideoThreadProc` of src/av.c around its frame loop: the requests that it sends, and its rounds.
pub mod Request
pub mod Session
pub mod Ends
mod Tests
