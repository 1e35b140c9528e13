-- ===== src/Util.antt =====
-- The free functions of src/util.cpp.
pub mod Hex
pub mod VarInt
pub mod Binomial
mod Tests
