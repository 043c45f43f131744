-- ===== src/Ingest.antt =====
-- internal/ingest
pub mod Sync
pub mod Live
pub mod Reload
pub mod Relays
pub mod Scrape
