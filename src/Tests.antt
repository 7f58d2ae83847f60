-- ===== src/Tests.antt =====
-- The theorems at concrete inputs.
mod Text
mod Names
mod Catalog
mod Service
mod Jobs
mod Scan
mod Command
mod Paths
mod Headers
