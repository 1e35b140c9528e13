-- ===== src/Config.antt =====
-- The configuration files of src/config.cpp: what parses them and what writes them.
pub mod Format
mod Quoted
mod Entries
mod Values
mod Names
mod Saved
mod Tests
