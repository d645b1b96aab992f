-- ===== src/Controllers.antt =====
-- src/controllers: a handler calls a service and answers with a mapped result, or passes the error on.
pub mod Reply
pub mod Patents
pub mod Users
pub mod Catalog
pub mod Privacy
pub mod Examples
