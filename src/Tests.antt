-- ===== src/Tests.antt =====
-- Concrete inputs of each component, and its theorems applied to them.
mod Catalogue
mod Events
mod Network
mod Runs
mod Rounds
mod Keys
mod Commands
mod Processes
mod Pages
