-- ===== src/Scan.antt =====
-- The scans of the catalog: libs/App/InpxScanJobService.cpp, and their supervision in
-- libs/Server/ServerScanCoordinator.cpp.
pub mod Budget
pub mod Coordinator
pub mod Jobs
pub mod Plan
pub mod Flight
pub mod Guards
pub mod Complete
