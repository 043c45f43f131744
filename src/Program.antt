-- ===== src/Program.antt =====
-- The commands as they are typed, with what they do to the catalogue and to the site.
pub mod Moderation
pub mod Closing
pub mod Following
