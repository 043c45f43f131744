-- ===== src/Nostr.antt =====
-- internal/nostr
pub mod Escape
pub mod External
pub mod ParseInt
pub mod Tags
pub mod Nip35
pub mod Keys
pub mod Client
pub mod Live
