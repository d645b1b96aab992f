-- ===== src/Middlewares.antt =====
-- src/middlewares/: what runs around the handlers.
pub mod Idempotency
pub mod Auth
pub mod Requests
pub mod ErrorHandler
pub mod Examples
