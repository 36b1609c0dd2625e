-- ===== src/User/Concurrent.antt =====
-- The handlers of user-service that use Redis, command by command, so that requests interleave.
pub mod Commands
pub mod Alone
pub mod Refinement
pub mod Steps
pub mod Holders
pub mod Avoiding
pub mod Confined
pub mod Spent
pub mod Progress
pub mod Logins
