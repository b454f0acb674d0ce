-- ===== src/Chat.antt =====
-- The chat example: the server of examples/chatserver and the program of examples/chatclient.
pub mod Scheme
pub mod Picking
pub mod Client
pub mod User
pub mod Server
pub mod Talk
pub mod Leave
pub mod Broadcast
