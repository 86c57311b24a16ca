-- ===== src/Combat.antt =====
-- The combat engine.
pub mod Types
pub mod Engine
pub mod Round
pub mod Fates
pub mod Victory
pub mod AutoPotion
pub mod Chosen
pub mod Enemies
pub mod Thousandths
mod Tests
