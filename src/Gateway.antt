-- ===== src/Gateway.antt =====
-- Package pkg/webircgateway: the clients and what the gateway does with their lines.
pub mod Config
pub mod Access
pub mod Client
pub mod MessageTags
pub mod Errors
pub mod Track
pub mod Rewrite
pub mod FromUpstream
pub mod Hooks
pub mod Throttle
pub mod World
pub mod Replace
pub mod Upstream
pub mod Ready
pub mod Registration
pub mod Transports
pub mod FromClient
pub mod Lines
pub mod Server
mod Tests
