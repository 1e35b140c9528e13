-- ===== src/Parser.antt =====
-- The parser combinators of src/parser.hpp and src/parser.cpp.
pub mod Span
pub mod State
pub mod Steps
pub mod Maps
pub mod Syntax
pub mod Texts
pub mod Moves
pub mod Advances
mod Reads
pub mod Reading
pub mod Ending
pub mod Endless
mod Messages
pub mod Literal
mod Positions
mod Tests
pub mod Accepts
pub mod Loops
pub mod Bytes
pub mod Numbers
