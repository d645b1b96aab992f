-- ===== src/Frontend.antt =====
-- frontend/src: how the single-page application keeps a session.
pub mod Client
pub mod Provider
pub mod Parallel
pub mod Guards
pub mod Forms
pub mod Moved
pub mod Consistent
pub mod Reachable
pub mod Interleaved
pub mod Server
pub mod Logout
pub mod ApiLaws
mod Examples
