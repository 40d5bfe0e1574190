-- ===== src/Client.antt =====
-- src/client.rs: the line reader and the handler of one connection.
pub mod Line
pub mod Session
pub mod Writer
