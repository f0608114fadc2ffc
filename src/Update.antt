-- ===== src/Update.antt =====
-- The database of vulnerabilities and the built-in policies, and when they are downloaded.
pub mod Oci
pub mod Db
pub mod Policy
pub mod Operation
mod Tests
