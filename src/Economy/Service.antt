-- ===== src/Economy/Service.antt =====
-- The requests that server/economy/EconomyService.ts answers with one transaction each, as they reach
-- the repository.
use vaelmour_game.Prelude.{ℕ, Option, none, some, List, [], ◌∷◌}
use vaelmour_game.Prelude.Int.{ℤ}
use vaelmour_game.Economy.Types.{Env, DirectTradeStatus}
use vaelmour_game.Economy.Repository.{
  Database, DurableExpeditionStart, economy_transact, start_expedition_transact,
}
use vaelmour_game.Economy.Orders.{create_sell_order, create_buy_order, cancel_market_order}
use vaelmour_game.Economy.Trades.{
  Availability, TradeOfferInput, request_trade, accept_trade, update_trade_offer,
}
use vaelmour_game.Economy.TradeEnd.{confirm_trade, close_trade, cleanup_orphaned_trades}
use vaelmour_game.Economy.Slots.{
  reserve_party_slot, accept_party_slot, refund_party_slot, cleanup_orphaned_party_slots,
  settle_party_slots,
}

-- The arguments of each method, less the operation's identifier.
pub data Request : Type 0 where
  sell_order buy_order : ℕ → ℕ → ℕ → ℕ → Request
  cancel_order : ℕ → ℕ → Request
  ask_trade agree_trade : Availability → ℕ → ℕ → Request
  offer_trade : ℕ → ℕ → TradeOfferInput → Request
  settle_trade : ℕ → ℕ → ℕ → Request
  cancel_trade decline_trade : ℕ → ℕ → Request
  clean_trades : Request
  reserve_slot : ℕ → ℕ → ℕ → ℤ → Request
  accept_slot : ℕ → ℕ → ℕ → Request
  refund_slot : ℕ → ℕ → Request
  settle_slots : ℕ → ℕ → List ℕ → Request
  clean_slots : Request
  start_expedition : DurableExpeditionStart → ℕ → List ℕ → Request

-- A result for which no reference is kept.
abbrev pub no_reference : {A : Type 0} → A → Option ℕ
no_reference a = none

module _ (env : Env) where
  -- The database after the request with this key.
  unfoldable pub handle : ℕ → Request → Database → Database
  handle key (sell_order player entry quantity price) db =
      (economy_transact key (create_sell_order env player entry quantity price) no_reference db).1
  handle key (buy_order player item quantity price) db =
      (economy_transact key (create_buy_order env player item quantity price) no_reference db).1
  handle key (cancel_order player order) db =
      (economy_transact key (cancel_market_order env player order) no_reference db).1
  handle key (ask_trade a requester receiver) db =
      (economy_transact key (request_trade env a requester receiver) some db).1
  handle key (agree_trade a player trade) db =
      (economy_transact key (accept_trade env a player trade) some db).1
  handle key (offer_trade player trade offer) db =
      (economy_transact key (update_trade_offer env player trade offer) some db).1
  handle key (settle_trade player trade revision) db =
      (economy_transact key (confirm_trade env player trade revision) some db).1
  handle key (cancel_trade player trade) db =
      (economy_transact key (close_trade env player trade DirectTradeStatus.cancelled) some db).1
  handle key (decline_trade player trade) db =
      (economy_transact key (close_trade env player trade DirectTradeStatus.declined) some db).1
  handle key clean_trades db =
      (economy_transact key (cleanup_orphaned_trades env) no_reference db).1
  handle key (reserve_slot room applicant leader amount) db =
      (economy_transact key (reserve_party_slot env room applicant leader amount) no_reference db).1
  handle key (accept_slot room applicant leader) db =
      (economy_transact key (accept_party_slot env room applicant leader) no_reference db).1
  handle key (refund_slot room applicant) db =
      (economy_transact key (refund_party_slot env room applicant) no_reference db).1
  handle key (settle_slots room leader members) db =
      (economy_transact key (settle_party_slots env room leader members) no_reference db).1
  handle key clean_slots db =
      (economy_transact key (cleanup_orphaned_party_slots env) no_reference db).1
  handle key (start_expedition marker leader members) db =
      (start_expedition_transact key marker (settle_party_slots env marker.room_id leader members)
        db).1

  -- A history of requests, each under its key.
  unfoldable pub serve : List (ℕ × Request) → Database → Database
  serve [] db = db
  serve ((key, r) ∷ rs) db = serve rs (handle key r db)
