-- ===== src/Economy/Conservation/History.antt =====
-- The wealth over whole histories of requests, and the operation keys of the repository.
use vaelmour_game.Prelude.{
  ℕ, ◌≡◌, refl, ◌∙◌, Option, none, some, List, [], ◌∷◌, Bool-cases, inl, inr,
}
use vaelmour_game.Prelude.Int.{ℤ, pos, ◌+ℤ◌, int_laws}
use vaelmour_game.Data.{includes}
use vaelmour_game.Economy.Types.{Env, DirectTradeStatus}
use vaelmour_game.Economy.Monad.{World, Action, Result, ok, err, Void}
use vaelmour_game.Economy.Valuation.{Moves, Shifts}
use vaelmour_game.Economy.Totals.{coins_and_fees, wealth}
use vaelmour_game.Economy.Repository.{
  Database, DurableExpeditionStart, begin, conclude, conclude_start, economy_transact,
  start_expedition_transact,
}
use vaelmour_game.Economy.Service.{
  Request, sell_order, buy_order, cancel_order, ask_trade, agree_trade, offer_trade, settle_trade,
  cancel_trade, decline_trade, clean_trades, reserve_slot, accept_slot, refund_slot, settle_slots,
  clean_slots, start_expedition, handle, serve, no_reference,
}
use vaelmour_game.Economy.Conservation.Orders.{
  create_sell_order-Shifts, create_buy_order-Shifts, cancel_market_order-Shifts,
}
use vaelmour_game.Economy.Conservation.Trades.{
  request_trade-Shifts, accept_trade-Shifts, update_trade_offer-Shifts, confirm_trade-Shifts,
  close_trade-Shifts, cleanup_orphaned_trades-Shifts,
}
use vaelmour_game.Economy.Conservation.Slots.{
  reserve_party_slot-Shifts, accept_party_slot-Shifts, refund_party_slot-Shifts,
  cleanup_orphaned_party_slots-Shifts, settle_party_slots-Shifts,
}

pub add_nothing : (x y : ℤ) → x ≡ y +ℤ pos 0 → x ≡ y
add_nothing x y h = grind int_laws

module _ {A : Type 0} where
  conclude-wealth :
      (key : ℕ) (reference : A → Option ℕ) (db : Database) (r : Result (A × World))
      → Moves coins_and_fees (pos 0) (begin db) r
      → wealth (conclude key reference db r).1.state ≡ wealth db.state
  conclude-wealth key reference db (ok (a, w)) h = go (reference a)
    where
      go :
          (o : Option ℕ)
          → wealth (conclude key (λ (_ : A). o) db (ok (a, w))).1.state ≡ wealth db.state
      go none = add_nothing _ _ h
      go (some r) = add_nothing _ _ h
  conclude-wealth key reference db (err e) h = refl

  pub economy_transact-wealth :
      (key : ℕ) {m : Action A} (reference : A → Option ℕ) (db : Database)
      → Shifts coins_and_fees (pos 0) m
      → wealth (economy_transact key m reference db).1.state ≡ wealth db.state
  unfolding economy_transact
  economy_transact-wealth key {m} reference db h = elim (Bool-cases (includes db.operations key)) [
    | inl old ↦ rw old
    | inr new ↦ rw new (conclude-wealth key reference db (m (begin db)) (h.run (begin db)))
  ]

conclude_start-wealth :
    (key : ℕ) (marker : DurableExpeditionStart) (db : Database) (r : Result (Void × World))
    → Moves coins_and_fees (pos 0) (begin db) r
    → wealth (conclude_start key marker db r).1.state ≡ wealth db.state
conclude_start-wealth key marker db (ok (_, w)) h = add_nothing _ _ h
conclude_start-wealth key marker db (err e) h = refl

pub start-wealth :
    (key : ℕ) (marker : DurableExpeditionStart) {m : Action Void} (db : Database)
    → Shifts coins_and_fees (pos 0) m
    → wealth (start_expedition_transact key marker m db).1.state ≡ wealth db.state
unfolding start_expedition_transact
start-wealth key marker {m} db h = elim (Bool-cases (includes db.operations key)) [
  | inl old ↦ rw old
  | inr new ↦ rw new (conclude_start-wealth key marker db (m (begin db)) (h.run (begin db)))
]

module _ (env : Env) where
  -- One request, whether it is applied, repeated or refused, conserves the wealth.
  pub handle-wealth :
      (key : ℕ) (r : Request) (db : Database) → wealth (handle env key r db).state ≡ wealth db.state
  unfolding handle
  handle-wealth key (sell_order p e q c) db =
      economy_transact-wealth key no_reference db (create_sell_order-Shifts env p e q c)
  handle-wealth key (buy_order p i q c) db =
      economy_transact-wealth key no_reference db (create_buy_order-Shifts env p i q c)
  handle-wealth key (cancel_order p o) db =
      economy_transact-wealth key no_reference db (cancel_market_order-Shifts env p o)
  handle-wealth key (ask_trade a q r) db =
      economy_transact-wealth key some db (request_trade-Shifts env a q r)
  handle-wealth key (agree_trade a p t) db =
      economy_transact-wealth key some db (accept_trade-Shifts env a p t)
  handle-wealth key (offer_trade p t o) db =
      economy_transact-wealth key some db (update_trade_offer-Shifts env p t o)
  handle-wealth key (settle_trade p t r) db =
      economy_transact-wealth key some db (confirm_trade-Shifts env p t r)
  handle-wealth key (cancel_trade p t) db =
      economy_transact-wealth key some db (close_trade-Shifts env p t DirectTradeStatus.cancelled)
  handle-wealth key (decline_trade p t) db =
      economy_transact-wealth key some db (close_trade-Shifts env p t DirectTradeStatus.declined)
  handle-wealth key clean_trades db =
      economy_transact-wealth key no_reference db (cleanup_orphaned_trades-Shifts env)
  handle-wealth key (reserve_slot o a l n) db =
      economy_transact-wealth key no_reference db (reserve_party_slot-Shifts env o a l n)
  handle-wealth key (accept_slot o a l) db =
      economy_transact-wealth key no_reference db (accept_party_slot-Shifts env o a l)
  handle-wealth key (refund_slot o a) db =
      economy_transact-wealth key no_reference db (refund_party_slot-Shifts env o a)
  handle-wealth key (settle_slots o l ms) db =
      economy_transact-wealth key no_reference db (settle_party_slots-Shifts env o l ms)
  handle-wealth key clean_slots db =
      economy_transact-wealth key no_reference db (cleanup_orphaned_party_slots-Shifts env)
  handle-wealth key (start_expedition m l ms) db =
      start-wealth key m db (settle_party_slots-Shifts env m.room_id l ms)

  -- Over any history of market, trade, party slot and expedition requests, applied, repeated or
  -- refused, the coins of all players, free and reserved, plus the fees that the ledger records as
  -- taken, less the rewards and grants that it records as given, stay what they were: no request
  -- creates or loses a coin.
  pub serve-wealth :
      (rs : List (ℕ × Request)) (db : Database) → wealth (serve env rs db).state ≡ wealth db.state
  unfolding serve
  serve-wealth [] db = refl
  serve-wealth ((key, r) ∷ rs) db = serve-wealth rs (handle env key r db) ∙ handle-wealth key r db
