-- ===== src/Spool.antt =====
-- The durable copies of messages: spool.go.
pub mod Disk
pub mod Open
pub mod Load
pub mod Durable
pub mod Names
pub mod Tests
