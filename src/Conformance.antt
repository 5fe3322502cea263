-- ===== src/Conformance.antt =====
-- The conformance suite: conformance/*.go.
pub mod Types
pub mod Errors
pub mod Catalog
pub mod Summary
pub mod Options
pub mod Checks
pub mod Platform
pub mod Report
pub mod Suite
pub mod Files
pub mod Matrix
pub mod Flags
pub mod GoTest
pub mod Await
pub mod Command
mod Tests
