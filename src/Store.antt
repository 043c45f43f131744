-- ===== src/Store.antt =====
-- internal/store
pub mod Table
pub mod Order
pub mod Db
pub mod Exec
pub mod Torrents
pub mod FtsQuery
pub mod Search
pub mod Relays
pub mod Accounts
pub mod Settings
pub mod Backup
pub mod Consistent
