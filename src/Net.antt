-- ===== src/Net.antt =====
-- src/connection.c: sending and receiving, the client's connection and the server socket. What the
-- socket calls answer is an argument of each function.
pub mod Defs
pub mod Send
pub mod Connect
pub mod Server
mod Tests
