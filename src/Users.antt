-- ===== src/Users.antt =====
-- Accounts and sessions: src/services/userService.js, with the parts of src/utils/helpers.js that it
-- calls.
pub mod Crypto
pub mod Sessions
pub mod Accounts
pub mod Rotation
pub mod Reuse
pub mod Stale
pub mod Revocation
mod Examples
pub mod Listing
pub mod Admins
pub mod Seed
