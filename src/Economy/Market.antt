-- ===== src/Economy/Market.antt =====
-- The market of server/economy/EconomyService.ts: limit orders with escrow, and their matching.
pub mod Book
pub mod Fills
pub mod Settled
pub mod Uncrossed
use vaelmour_game.Prelude.{
  ℕ, zero, suc, ◌+◌, ◌-◌, ◌*◌, ◌/◌, min, Bool, true, false, not, ◌&&◌, ◌||◌, Option, none, some,
  List, [], ◌∷◌, ltb, leb, ◌==◌, if◌then◌else◌, find, keep, change_first, sort_by,
}
use vaelmour_game.Prelude.Int.{is_zero, ℤ, pos, negsuc, ◌-ℤ◌, ltb_ℤ}
use vaelmour_game.Prelude.Dict.{values}
use vaelmour_game.Data.{StoredPlayerProfile, ReservedItemEntry, in_market}
use vaelmour_game.Economy.Types.{
  EconomyState, Env, MarketOrder, MarketSide, MarketOrderStatus, LedgerReason, is_live,
}
use vaelmour_game.Economy.Monad.{
  Action, Void, ◌>>=◌, ◌>>◌, pure, throw, or_throw, throw_if, gets, when, random_uuid, now,
  escrow_mismatch, reservation_mismatch, fuel,
}
use vaelmour_game.Economy.Store.{
  player, change_player, put_order, push_fill, add_coins, sub_coins, sub_reserved_coins,
  remove_reserved, is_stackable, ledger, add_inventory,
}

-- `Math.ceil(n * MARKET_FEES.buyOrder)`, one percent, and `Math.ceil(n * MARKET_FEES.transaction)`,
-- two percent. The products of the doubles are exact here: neither rate's rounding error reaches
-- half a unit in the last place.
unfoldable pub buy_order_fee : ℕ → ℕ
buy_order_fee n = (n + 99) / 100

unfoldable pub transaction_fee : ℕ → ℕ
transaction_fee n = (n * 2 + 99) / 100

abbrev pub is_side : MarketSide → MarketSide → Bool
is_side MarketSide.buy MarketSide.buy = true
is_side MarketSide.buy MarketSide.sell = false
is_side MarketSide.sell MarketSide.buy = false
is_side MarketSide.sell MarketSide.sell = true

unfoldable pub open_orders : EconomyState → ℕ → MarketSide → List MarketOrder
open_orders s item_id side =
    keep (λ o. o.item_id == item_id && is_side o.side side && is_live o) (values s.market_orders)

unfoldable pub update_order_status : ℕ → MarketOrder → MarketOrder
update_order_status t o = record o {
  status =
      if o.remaining_quantity == 0
      then MarketOrderStatus.filled
      else if o.remaining_quantity == o.original_quantity
      then MarketOrderStatus.open_order
      else MarketOrderStatus.partially_filled;
  escrow_item_id =
      if is_side o.side MarketSide.sell && o.remaining_quantity == 0
      then none
      else o.escrow_item_id;
  updated_at = t;
}

-- `entry.entryId === order.escrowItemId && entry.location === 'MARKET_ESCROW'`
abbrev pub is_escrow_of : MarketOrder → ReservedItemEntry → Bool
is_escrow_of o e = elim o.escrow_item_id [
  | none ↦ false
  | some id ↦ e.entry_id == id && in_market e
]

-- `escrow.quantity -= quantity; if (!escrow.quantity) this.removeReserved(seller, escrow.entryId)`
abbrev pub take_escrow :
    MarketOrder → ReservedItemEntry → ℕ → StoredPlayerProfile → StoredPlayerProfile
take_escrow o escrow quantity p =
    let taken = record p {
      reserved_items =
          change_first (is_escrow_of o) (λ e. record e { quantity = e.quantity - quantity })
            p.reserved_items;
    } in
    if escrow.quantity == quantity then remove_reserved escrow.entry_id taken else taken

-- `order.remainingQuantity -= quantity; this.updateOrderStatus(order)`
abbrev pub after_fill : ℕ → ℕ → MarketOrder → MarketOrder
after_fill quantity t o =
    update_order_status t (record o { remaining_quantity = o.remaining_quantity - quantity })

-- The price of the order that came first.
unfoldable pub fill_price : Env → MarketOrder → MarketOrder → ℕ
fill_price env b s =
    if ltb b.created_at s.created_at || (b.created_at == s.created_at && env.text_before b.id s.id)
    then b.price_per_unit
    else s.price_per_unit

-- `b.pricePerUnit - a.pricePerUnit || a.createdAt - b.createdAt || a.id.localeCompare(b.id)`, < 0
abbrev pub buy_before : Env → MarketOrder → MarketOrder → Bool
buy_before env a b =
    ltb b.price_per_unit a.price_per_unit
    || (a.price_per_unit == b.price_per_unit
        && (ltb a.created_at b.created_at
            || (a.created_at == b.created_at && env.locale_before a.id b.id)))

abbrev pub sell_before : Env → MarketOrder → MarketOrder → Bool
sell_before env a b =
    ltb a.price_per_unit b.price_per_unit
    || (a.price_per_unit == b.price_per_unit
        && (ltb a.created_at b.created_at
            || (a.created_at == b.created_at && env.locale_before a.id b.id)))

abbrev pub crosses : MarketOrder → MarketOrder → Bool
crosses b s = not (s.player_id == b.player_id) && leb s.price_per_unit b.price_per_unit

-- the `for` over the buys with its `break`
unfoldable pub find_pair : List MarketOrder → List MarketOrder → Option (MarketOrder × MarketOrder)
find_pair [] sells = none
find_pair (b ∷ buys) sells = elim (find (crosses b) sells) [
  | some s ↦ some (b, s)
  | none ↦ find_pair buys sells
]

unfoldable pub best_pair : Env → ℕ → EconomyState → Option (MarketOrder × MarketOrder)
best_pair env item_id s =
    find_pair (sort_by (buy_before env) (open_orders s item_id MarketSide.buy))
      (sort_by (sell_before env) (open_orders s item_id MarketSide.sell))

abbrev pub total_remaining : List MarketOrder → ℕ
total_remaining [] = 0
total_remaining (o ∷ os) = o.remaining_quantity + total_remaining os

module _ (env : Env) where
  unfoldable pub settle_fill : MarketOrder → MarketOrder → ℕ → ℕ → Action Void
  settle_fill b s quantity unit_price = do
    buyer ← player b.player_id
    seller ← player s.player_id
    escrow ← or_throw (find (is_escrow_of s) seller.reserved_items) escrow_mismatch
    throw_if (ltb escrow.quantity quantity) escrow_mismatch
    let release = pos (b.price_per_unit * quantity)
    let gross = pos (unit_price * quantity)
    throw_if (ltb_ℤ b.reserved_coins release || ltb_ℤ buyer.reserved_coins release)
        reservation_mismatch
    change_player b.player_id (sub_reserved_coins release)
    let refund = release -ℤ gross
    when (not (is_zero refund)) (do
      change_player b.player_id (add_coins refund)
      ledger env b.player_id refund LedgerReason.market_buy_release)
    let fee = transaction_fee (unit_price * quantity)
    change_player s.player_id (add_coins gross)
    ledger env b.player_id (pos 0) LedgerReason.market_buy
    ledger env s.player_id gross LedgerReason.market_sell
    when (not (fee == 0)) (do
      change_player s.player_id (sub_coins (pos fee))
      ledger env s.player_id (pos 0 -ℤ pos fee) LedgerReason.market_transaction_fee)
    change_player s.player_id (take_escrow s escrow quantity)
    let emptied = escrow.quantity == quantity
    add_inventory env b.player_id escrow.item_id quantity (
        if not (is_stackable (env.catalog escrow.item_id)) && emptied
        then some escrow.entry_id
        else none)
    bought_at ← now env
    put_order
        (after_fill quantity bought_at (record b { reserved_coins = b.reserved_coins -ℤ release }))
    sold_at ← now env
    put_order (after_fill quantity sold_at s)
    fill_id ← random_uuid env
    created_at ← now env
    push_fill (record {
      id = fill_id;
      item_id = b.item_id;
      buy_order_id = b.id;
      sell_order_id = s.id;
      buyer_id = buyer.player_id;
      seller_id = seller.player_id;
      unit_price = unit_price;
      quantity = quantity;
      created_at = created_at;
    })

  -- `while (true)` of `match`, with the rounds that it may take.
  unfoldable pub match_orders : ℕ → ℕ → Action Void
  match_orders zero item_id = throw fuel
  match_orders (suc rounds) item_id = gets (best_pair env item_id) >>= λ pair. elim pair [
    | none ↦ pure tt
    | some (b, s) ↦
        settle_fill b s (min b.remaining_quantity s.remaining_quantity) (fill_price env b s)
        >> match_orders rounds item_id
  ]

  -- One round takes at least one unit from an open buy order, so these rounds are enough.
  unfoldable pub match_rounds : ℕ → EconomyState → ℕ
  match_rounds item_id s = suc (total_remaining (open_orders s item_id MarketSide.buy))

  unfoldable pub match : ℕ → Action Void
  match item_id = do match_orders (← gets (match_rounds item_id)) item_id
