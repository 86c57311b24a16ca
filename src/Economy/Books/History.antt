-- ===== src/Economy/Books/History.antt =====
-- The book of orders over whole histories of requests.
use vaelmour_game.Prelude.{ℕ, Option, none, some, List, [], ◌∷◌, Bool-cases, inl, inr}
use vaelmour_game.Data.{includes}
use vaelmour_game.Economy.Types.{Env, DirectTradeStatus}
use vaelmour_game.Economy.Monad.{World, Action, Result, ok, err, Void}
use vaelmour_game.Economy.Repository.{
  Database, DurableExpeditionStart, begin, conclude, conclude_start, economy_transact,
  start_expedition_transact,
}
use vaelmour_game.Economy.Service.{
  Request, sell_order, buy_order, cancel_order, ask_trade, agree_trade, offer_trade, settle_trade,
  cancel_trade, decline_trade, clean_trades, reserve_slot, accept_slot, refund_slot, settle_slots,
  clean_slots, start_expedition, handle, serve, no_reference,
}
use vaelmour_game.Economy.Market.Book.{IsBook}
use vaelmour_game.Economy.Books.{KeepsBook, Kept}
use vaelmour_game.Economy.Books.Orders.{
  create_sell_order-KeepsBook, create_buy_order-KeepsBook, cancel_market_order-KeepsBook,
}
use vaelmour_game.Economy.Books.Trades.{
  request_trade-KeepsBook, accept_trade-KeepsBook, update_trade_offer-KeepsBook,
  confirm_trade-KeepsBook, close_trade-KeepsBook, cleanup_orphaned_trades-KeepsBook,
}
use vaelmour_game.Economy.Books.Slots.{
  reserve_party_slot-KeepsBook, accept_party_slot-KeepsBook, refund_party_slot-KeepsBook,
  cleanup_orphaned_party_slots-KeepsBook, settle_party_slots-KeepsBook,
}

abbrev pub HasBook : Database → Type 0
HasBook db = IsBook db.state.market_orders

module _ {A : Type 0} where
  conclude-HasBook :
      (key : ℕ) (reference : A → Option ℕ) (db : Database) (r : Result (A × World))
      → HasBook db
      → Kept r
      → HasBook (conclude key reference db r).1
  conclude-HasBook key reference db (ok (a, w)) h k = go (reference a)
    where
      go : (o : Option ℕ) → HasBook (conclude key (λ (_ : A). o) db (ok (a, w))).1
      go none = k
      go (some r) = k
  conclude-HasBook key reference db (err e) h k = h

  economy_transact-HasBook :
      (key : ℕ) {m : Action A} (reference : A → Option ℕ) (db : Database)
      → KeepsBook m
      → HasBook db
      → HasBook (economy_transact key m reference db).1
  unfolding economy_transact
  economy_transact-HasBook key {m} reference db k h =
      elim (Bool-cases (includes db.operations key)) [
        | inl old ↦ rw old h
        | inr new ↦ rw new (conclude-HasBook key reference db (m (begin db)) h (k.run (begin db) h))
      ]

conclude_start-HasBook :
    (key : ℕ) (marker : DurableExpeditionStart) (db : Database) (r : Result (Void × World))
    → HasBook db
    → Kept r
    → HasBook (conclude_start key marker db r).1
conclude_start-HasBook key marker db (ok (_, w)) h k = k
conclude_start-HasBook key marker db (err e) h k = h

start-HasBook :
    (key : ℕ) (marker : DurableExpeditionStart) {m : Action Void} (db : Database)
    → KeepsBook m
    → HasBook db
    → HasBook (start_expedition_transact key marker m db).1
unfolding start_expedition_transact
start-HasBook key marker {m} db k h = elim (Bool-cases (includes db.operations key)) [
  | inl old ↦ rw old h
  | inr new ↦ rw new (conclude_start-HasBook key marker db (m (begin db)) h (k.run (begin db) h))
]

module _ (env : Env) where
  handle-HasBook :
      (key : ℕ) (r : Request) (db : Database) → HasBook db → HasBook (handle env key r db)
  unfolding handle
  handle-HasBook key (sell_order p e q c) db =
      economy_transact-HasBook key no_reference db (create_sell_order-KeepsBook env p e q c)
  handle-HasBook key (buy_order p i q c) db =
      economy_transact-HasBook key no_reference db (create_buy_order-KeepsBook env p i q c)
  handle-HasBook key (cancel_order p o) db =
      economy_transact-HasBook key no_reference db (cancel_market_order-KeepsBook env p o)
  handle-HasBook key (ask_trade a q r) db =
      economy_transact-HasBook key some db (request_trade-KeepsBook env a q r)
  handle-HasBook key (agree_trade a p t) db =
      economy_transact-HasBook key some db (accept_trade-KeepsBook env a p t)
  handle-HasBook key (offer_trade p t o) db =
      economy_transact-HasBook key some db (update_trade_offer-KeepsBook env p t o)
  handle-HasBook key (settle_trade p t r) db =
      economy_transact-HasBook key some db (confirm_trade-KeepsBook env p t r)
  handle-HasBook key (cancel_trade p t) db =
      economy_transact-HasBook key some db
        (close_trade-KeepsBook env p t DirectTradeStatus.cancelled)
  handle-HasBook key (decline_trade p t) db =
      economy_transact-HasBook key some db
        (close_trade-KeepsBook env p t DirectTradeStatus.declined)
  handle-HasBook key clean_trades db =
      economy_transact-HasBook key no_reference db (cleanup_orphaned_trades-KeepsBook env)
  handle-HasBook key (reserve_slot o a l n) db =
      economy_transact-HasBook key no_reference db (reserve_party_slot-KeepsBook env o a l n)
  handle-HasBook key (accept_slot o a l) db =
      economy_transact-HasBook key no_reference db (accept_party_slot-KeepsBook env o a l)
  handle-HasBook key (refund_slot o a) db =
      economy_transact-HasBook key no_reference db (refund_party_slot-KeepsBook env o a)
  handle-HasBook key (settle_slots o l ms) db =
      economy_transact-HasBook key no_reference db (settle_party_slots-KeepsBook env o l ms)
  handle-HasBook key clean_slots db =
      economy_transact-HasBook key no_reference db (cleanup_orphaned_party_slots-KeepsBook env)
  handle-HasBook key (start_expedition m l ms) db =
      start-HasBook key m db (settle_party_slots-KeepsBook env m.room_id l ms)

  -- Over any history of economy requests, applied, repeated or refused, a book of orders in which
  -- every order stands under its own identifier, once, and every open order has units left, stays
  -- such a book.
  pub serve-HasBook :
      (rs : List (ℕ × Request)) (db : Database) → HasBook db → HasBook (serve env rs db)
  unfolding serve
  serve-HasBook [] db h = h
  serve-HasBook ((key, r) ∷ rs) db h =
      serve-HasBook rs (handle env key r db) (handle-HasBook key r db h)
