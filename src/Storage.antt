-- ===== src/Storage.antt =====
-- crates/storage: SQLite metadata and encrypted blobs.
pub mod Rows
pub mod Records
pub mod Decode
pub mod Queries
pub mod Shares
pub mod Users
pub mod Vendors
pub mod Sessions
pub mod ApiTokens
pub mod Prints
pub mod Stable
pub mod Consume
pub mod Ledger
pub mod Open
