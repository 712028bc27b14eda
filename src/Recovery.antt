-- ===== src/Recovery.antt =====
-- The queues and the spool together: the disk mirrors what is queued, and a restart restores it.
pub mod Mirror
pub mod Removal
pub mod Settling
pub mod Calls
pub mod Storing
pub mod Reading
pub mod Restart
pub mod Runs
pub mod Tests
