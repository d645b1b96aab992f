-- ===== src/Prisma.antt =====
-- The database client (`@prisma/client` over Postgres) as an interface, and an instance of it.
pub mod Rows
pub mod Defs
pub mod Memory
pub mod Unique
pub mod Shuffle
pub mod Ordered
pub use Rows.{Table, no_clash, unique_violation, record_missing}
pub use Defs.{Prisma}
