-- ===== src/BTree.antt =====
-- The balanced search tree of src/btree.hpp.
pub mod Tree
pub mod Rotating
pub mod Searching
pub mod Changing
pub mod Iterating
pub mod Reversing
mod InOrder
mod Balance
mod Sorted
mod Found
mod Strict
mod First
mod Rounds
mod Rebalanced
mod Inserted
mod Leftmost
mod Removed
mod Visited
mod Returned
mod Bounds
mod Built
mod Tests
