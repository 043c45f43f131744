-- ===== src/Cli.antt =====
-- internal/cli: the commands of the program
pub mod Flags
pub mod Terminal
pub mod Follow
pub mod Relay
pub mod Torrent
pub mod Purge
pub mod Fetch
pub mod Site
pub mod Process
pub mod Server
pub mod Run
