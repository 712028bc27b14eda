-- ===== src/Relay.antt =====
-- The store of undelivered messages: relay.go and lease.go.
pub mod Message
pub mod Store
pub mod Leased
pub mod Frame
pub mod Isolation
pub mod Loops
pub mod Holding
pub mod Expiry
pub mod Lapse
pub mod Collect
pub mod Exclusion
pub mod Guarantees
pub mod Draining
pub mod Counters
pub mod Accepting
pub mod Invariant
pub mod Steps
pub mod Preservation
pub mod PutPreservation
pub mod Histories
pub mod Freshness
pub mod Leasing
pub mod Single
pub mod Promises
pub mod Durability
pub mod Tests
pub mod DrainTests
pub mod SpoolTests
