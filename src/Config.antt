-- ===== src/Config.antt =====
-- What the operator configures: main.go and verify.go.
pub mod Estates
pub mod LeaseKey
pub mod Start
pub mod Sides
pub mod Wrapping
pub mod Checks
pub mod Tests
pub mod StartTests
