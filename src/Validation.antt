-- ===== src/Validation.antt =====
-- src/utils/validation: the checks on requests.
pub mod Ids
pub mod Passwords
pub mod Examples
