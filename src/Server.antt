-- ===== src/Server.antt =====
-- The HTTP handlers: server.go.
pub mod Reply
pub mod Waiters
pub mod Put
pub mod LeaseParam
pub mod Get
pub mod Answers
pub mod Polling
pub mod Service
pub mod Confinement
pub mod Tenancy
pub mod Sending
pub mod Collecting
pub mod Admitting
pub mod Inflation
pub mod Delivery
pub mod Waking
pub mod HeldPolls
pub mod Acknowledging
pub mod Tests
pub mod ServiceTests
pub mod DeliveryTests
