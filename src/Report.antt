-- ===== src/Report.antt =====
-- The comparison of two diagnosis reports, of internal/report/report.go and internal/jsonutil.
pub mod Json
pub mod Findings
pub mod Compare
pub mod Sanitize
pub mod Serialize
pub mod Build
pub mod Graph
pub mod Draw
pub mod Junit
pub mod Bridge
