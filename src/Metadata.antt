-- ===== src/Metadata.antt =====
-- libs/Domain/MetadataNormalization.cpp: comparison keys of texts, and ISBNs.
pub mod Key
pub mod Isbn
