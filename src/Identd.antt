-- ===== src/Identd.antt =====
-- Package pkg/identd: the ident server and its RPC client.
pub mod Server
pub mod Laws
pub mod Rpc
mod Tests
