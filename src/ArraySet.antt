-- ===== src/ArraySet.antt =====
-- The array indexed by sets of src/arrayset.hpp.
pub mod Sets
mod Sorted
mod Ranked
mod Tests
