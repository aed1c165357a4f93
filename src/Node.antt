-- ===== src/Node.antt =====
-- crates/triptorrent-node/src/lib.rs: the configuration and the transfers of a node. The columns
-- `direction`, `network_path`, `created_at` and `updated_at`, which no statement reads back to
-- decide anything, are left out, and so are the errors of SQLite, of files and of poisoned locks.
pub mod Config
pub mod Transfers
pub mod Rows
pub mod Runtime
pub mod Tasks
pub mod Held
pub mod Handlers
pub mod Machine
pub mod Pause
