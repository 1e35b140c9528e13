-- ===== src/Template.antt =====
-- The text templates of src/template.c: parsing, measuring and writing out.
pub mod Tree
pub mod Parsing
pub mod Rendering
mod Layout
mod Filling
mod Rounds
mod Parsed
mod Filled
mod Escape
mod Quote
mod Reads
mod Length
mod Written
mod Tests
