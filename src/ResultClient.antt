-- ===== src/ResultClient.antt =====
-- pkg/result/result.go: the client that fills in the details of what the detectors found, and
-- filters and sorts it for the report.
pub mod Fill
pub mod Vulnerabilities
pub mod Misconfigurations
pub mod Policy
pub mod Filter
mod Tests
