-- ===== src/Routes.antt =====
-- src/routes: which requests reach which handler.
pub mod Entries
pub mod Table
pub mod Guarded
mod Examples
