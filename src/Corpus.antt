-- ===== src/Corpus.antt =====
-- What the downstream projection of the published events holds, against the statuses in the
-- database: the transactions of src/services/patentService.js and the relay's writes, in any order.
pub mod Defs
pub mod Lists
pub mod Moves
pub mod Edits
pub mod Consistency
pub mod Race
mod Examples
