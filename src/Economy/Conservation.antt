-- ===== src/Economy/Conservation.antt =====
-- Every transaction of the economy conserves the coins of all players, fees included.
pub mod Market
pub mod Orders
pub mod Trades
pub mod Slots
pub mod History
