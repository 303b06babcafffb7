-- ===== src/Update.antt =====
-- cli/update: the update engine.
pub mod Disk
pub mod Version
pub mod Encode
pub mod Journal
pub mod Recover
pub mod Transaction
pub mod Commit
pub mod Ends
mod Tests
