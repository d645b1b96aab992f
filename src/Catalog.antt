-- ===== src/Catalog.antt =====
-- The shared vocabulary of the patents: src/services/categoryService.js and
-- src/services/inventorService.js.
pub mod Categories
pub mod Inventors
pub mod Laws
pub mod Listing
pub mod Examples
