-- ===== src/Report.antt =====
-- pkg/report: the writers of a report.
pub mod Cyclonedx
pub mod Sarif
pub mod Table
pub mod Writer
mod Tests
