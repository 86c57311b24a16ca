-- ===== src/Players.antt =====
-- The player state service: what a player carries, stores and wears.
pub mod Attempt
pub mod Bag
pub mod Inventory
pub mod Items
pub mod Rifts
pub mod Profile
pub mod Counts
pub mod Held
pub mod Consumed
pub mod Crafted
pub mod Unlocks
pub mod Outcomes
pub mod Purses
mod Tests
