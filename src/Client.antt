-- ===== src/Client.antt =====
-- The sending side of the transport test: task3_making-chat-on-c/client.c.
pub mod Lines
pub mod Blocks
pub mod Dispatch
pub mod Sends
pub mod Agreement
mod Tests
