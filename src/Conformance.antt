-- ===== src/Conformance.antt =====
-- The conformance suite: conformance/ and cmd/conformance.
pub mod ControlPlane
pub mod Tenants
pub mod Lease
pub mod Encoders
pub mod Client
pub mod Durability
pub mod Exchange
pub mod Machine
pub mod Stations
pub mod Ready
pub mod Steps
pub mod Calls
pub mod Leasing
pub mod Leases
pub mod Holding
pub mod Returning
pub mod LeaseCalls
pub mod LeaseTerms
pub mod Passing
pub mod Survival
pub mod Tokens
pub mod TestBench
pub mod SurvivalTests
pub mod TokensTests
pub mod HoldingTests
pub mod Tests
