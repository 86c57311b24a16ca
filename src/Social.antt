-- ===== src/Social.antt =====
-- Friends and blocks: server/social. The rate of the chat: server/chat.
pub mod Types
pub mod Friends
pub mod Pairs
pub mod Amity
pub mod Relation
pub mod ChatRate
mod Tests
