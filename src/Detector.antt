-- ===== src/Detector.antt =====
-- pkg/detector and pkg/scanner/utils: the detectors of vulnerabilities in packages.
pub mod Version
pub mod Ospkg
pub mod Library
mod Tests
