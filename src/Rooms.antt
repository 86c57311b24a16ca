-- ===== src/Rooms.antt =====
-- The rooms: parties in the lobby, expeditions, rounds and votes.
pub mod Handler
pub mod Types
pub mod Store
pub mod Lobby
pub mod Leaving
pub mod Start
pub mod Rewards
pub mod Votes
pub mod Battle
pub mod Rounds
pub mod Peers
pub mod Events
pub mod Keeping
pub mod Entries
pub mod Decision
pub mod Locked
pub mod Roster
pub mod Wealth
pub mod Once
mod Tests
