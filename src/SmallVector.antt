-- ===== src/SmallVector.antt =====
-- The vector with inline space of src/smallvector.hpp.
pub mod Buffer
pub mod Pointer
pub mod Editing
mod Positions
mod Contents
mod Erased
mod Sized
mod Pushed
mod Inserted
mod Tests
