-- ===== src/State.antt =====
-- src/repository/RedisStreamStateManager.cpp: the tasks of all streams, kept in Redis.
pub mod Keys
pub mod Query
pub mod Deregister
pub mod Register
pub mod Scan
pub mod View
pub mod Store
pub mod Stored
pub mod Removal
pub mod Publishing
pub mod Totals
pub mod Playing
pub mod Removed
pub mod Scanned
pub mod Clearing
pub mod Isolation
pub mod Counting
