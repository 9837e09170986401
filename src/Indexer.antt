-- ===== src/Indexer.antt =====
-- indexer/src/main.rs: the settings, and what the program starts with them.
pub mod Number
pub mod Parse
pub mod Settings
pub mod Start
pub mod Mode
