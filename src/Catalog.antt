-- ===== src/Catalog.antt =====
-- The tables of the catalogue that a scan keeps up to date: libs/App/InpxScanJobService.cpp and
-- libs/Database/CatalogStatisticsMaintenance.cpp.
pub mod Locations
pub mod Covers
