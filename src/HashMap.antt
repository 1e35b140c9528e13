-- ===== src/HashMap.antt =====
-- `Map` of src/map.hpp: an open-addressed table of groups of 16 slots. A control byte of a slot is
-- 0 (never used), 0x80 (left by a removal) or the low byte of the hash of the key that is there.
pub mod Table
pub mod Probing
pub mod Growth
pub mod Methods
mod Tests
mod Groups
mod Matching
mod Locate
mod Valid
mod Lookup
mod Change
mod Effect
mod Entry
mod Update
mod Coverage
mod Fresh
pub mod Iterating
mod Walked
mod Iterated
