-- ===== src/Relay.antt =====
-- The store-and-forward relay (relay/src).
pub mod Store
pub mod RateLimiter
pub mod Protocol
pub mod Query
pub mod Server
pub mod CommandLine
pub mod Samples
mod Tests
mod ServerTests
