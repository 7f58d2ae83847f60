-- ===== src/Store.antt =====
-- How files are replaced, of libs/App, and which paths stay below a root, of libs/Storage.
pub mod Replacement
pub mod Paths
