-- ===== src/Server.antt =====
-- The receiving side of the transport test: task3_making-chat-on-c/server.c.
pub mod Stream
pub mod Datagram
pub mod Dispatch
pub mod Release
pub mod Delivery
mod Tests
