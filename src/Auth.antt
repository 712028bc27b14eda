-- ===== src/Auth.antt =====
-- Who may do what: auth.go, scope.go, authlease.go, remote.go and the static tokens of server.go.
pub mod Types
pub mod Scoped
pub mod Static
pub mod Authority
pub mod Remote
pub mod Bounds
pub mod Bounded
pub mod Roles
pub mod Watching
pub mod Minting
pub mod Referral
pub mod Tests
pub mod MintingTests
pub mod RolesTests
pub mod Reused
pub mod Listing
