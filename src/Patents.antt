-- ===== src/Patents.antt =====
-- The patent workflow: src/services/patentService.js and src/services/patents/.
pub mod Rows
pub mod Lifecycle
pub mod Access
pub mod Relations
pub mod Documents
pub mod Review
pub mod Editing
pub mod Updating
pub mod Listing
pub mod Reads
pub mod Examples
