-- ===== src/Numeric.antt =====
-- The numbers of src/numeric.cpp and src/numeric.hpp.
pub mod Digits
pub mod Signs
mod Carried
mod Negated
mod Compared
mod Tests
