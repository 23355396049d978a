-- ===== src/Proxy.antt =====
-- Package pkg/proxy: the connection of a gateway to a kiwi proxy, and the proxy's side of it.
pub mod Errors
pub mod Connection
pub mod Server
pub mod Protocol
pub mod Tests
