-- ===== src/Web.antt =====
-- internal/web
pub mod RateLimit
pub mod Helpers
pub mod ClientIp
pub mod Markdown
pub mod Site
pub mod Search
pub mod Torrent
pub mod Rss
pub mod Serve
