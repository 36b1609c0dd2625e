-- ===== src/User.antt =====
-- user-service.
pub mod Table
pub mod Tokens
pub mod Codec
pub mod Service
pub mod Accounts
pub mod Lookups
pub mod Links
pub mod Sessions
pub mod Tombstones
pub mod Rotation
pub mod Replay
pub mod Life
pub mod Jwks
pub mod Concurrent
