-- ===== src/Economy.antt =====
-- The economy: the market, direct trades and paid party slots.
pub mod Types
pub mod Monad
pub mod Store
pub mod Market
pub mod Orders
pub mod Trades
pub mod TradeEnd
pub mod Slots
pub mod Valuation
pub mod Totals
pub mod Books
pub mod Conservation
pub mod Repository
pub mod Service
mod Tests
