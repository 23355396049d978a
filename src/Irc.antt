-- ===== src/Irc.antt =====
-- Package pkg/irc: messages, and the state that the gateway keeps of a connection.
pub mod Message
pub mod Isupport
pub mod State
mod Tests
