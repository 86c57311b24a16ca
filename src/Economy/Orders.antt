-- ===== src/Economy/Orders.antt =====
-- The transactions of server/economy/EconomyService.ts that open and cancel market orders.
use vaelmour_game.Prelude.{
  ℕ, ◌+◌, ◌*◌, Bool, true, false, not, ◌&&◌, Option, none, some, ltb, ◌==◌, if◌then◌else◌, find,
}
use vaelmour_game.Prelude.Int.{pos, ◌-ℤ◌, ltb_ℤ}
use vaelmour_game.Prelude.Dict.{lookup}
use vaelmour_game.Data.{StoredPlayerProfile, ItemDefinition, EscrowLocation}
use vaelmour_game.Economy.Types.{
  Env, MarketOrder, MarketSide, MarketOrderStatus, LedgerReason, is_live,
}
use vaelmour_game.Economy.Monad.{
  Action, ◌>>=◌, ◌>>◌, pure, or_throw, throw_if, gets, when, random_uuid, now, escrow_mismatch,
  item_not_available, unknown_item, invalid_quantity, not_enough_items,
  insufficient_available_coins, order_not_owned, order_closed,
}
use vaelmour_game.Economy.Store.{
  positive, player, change_player, put_order, add_coins, sub_coins, add_reserved_coins,
  sub_reserved_coins, has_entry_id, remove_reserved, push_reserved, take_inventory, is_stackable,
  ledger, add_inventory,
}
use vaelmour_game.Economy.Market.{buy_order_fee, is_side, is_escrow_of, match}

abbrev pub defined : Option ItemDefinition → Bool
defined none = false
defined (some _) = true

module _ (env : Env) where
  -- The item and the new order's identifier. The escrow keeps the entry's identifier if the whole
  -- entry goes into it.
  unfoldable pub create_sell_order : ℕ → ℕ → ℕ → ℕ → Action (ℕ × ℕ)
  create_sell_order player_id entry_id quantity price_per_unit = do
    positive quantity
    positive price_per_unit
    seller ← player player_id
    source ← or_throw (find (has_entry_id entry_id) seller.inventory) item_not_available
    throw_if (not (defined (env.catalog source.item_id))) unknown_item
    throw_if (not (is_stackable (env.catalog source.item_id)) && not (quantity == 1))
        invalid_quantity
    throw_if (ltb source.quantity quantity) not_enough_items
    escrow_id ← if quantity == source.quantity then pure source.entry_id else random_uuid env
    change_player player_id (take_inventory source quantity)
    change_player player_id (
        push_reserved (record {
          entry_id = escrow_id;
          item_id = source.item_id;
          quantity = quantity;
          location = EscrowLocation.market_escrow;
        }))
    created_at ← now env
    order_id ← random_uuid env
    put_order (record {
      id = order_id;
      player_id = player_id;
      item_id = source.item_id;
      escrow_item_id = some escrow_id;
      side = MarketSide.sell;
      price_per_unit = price_per_unit;
      original_quantity = quantity;
      remaining_quantity = quantity;
      reserved_coins = pos 0;
      status = MarketOrderStatus.open_order;
      created_at = created_at;
      updated_at = created_at;
    })
    match env source.item_id
    pure (source.item_id, order_id)

  unfoldable pub create_buy_order : ℕ → ℕ → ℕ → ℕ → Action (ℕ × ℕ)
  create_buy_order player_id item_id quantity price_per_unit = do
    positive quantity
    positive price_per_unit
    throw_if (not (defined (env.catalog item_id))) unknown_item
    throw_if (not (is_stackable (env.catalog item_id)) && not (quantity == 1)) invalid_quantity
    buyer ← player player_id
    let reserve = quantity * price_per_unit
    let fee = buy_order_fee reserve
    throw_if (ltb_ℤ buyer.coins (pos (reserve + fee))) insufficient_available_coins
    change_player player_id (sub_coins (pos (reserve + fee)))
    change_player player_id (add_reserved_coins (pos reserve))
    created_at ← now env
    order_id ← random_uuid env
    put_order (record {
      id = order_id;
      player_id = player_id;
      item_id = item_id;
      escrow_item_id = none;
      side = MarketSide.buy;
      price_per_unit = price_per_unit;
      original_quantity = quantity;
      remaining_quantity = quantity;
      reserved_coins = pos reserve;
      status = MarketOrderStatus.open_order;
      created_at = created_at;
      updated_at = created_at;
    })
    ledger env player_id (pos 0 -ℤ pos reserve) LedgerReason.market_buy_reserve
    when (not (fee == 0))
        (ledger env player_id (pos 0 -ℤ pos fee) LedgerReason.market_buy_order_fee)
    match env item_id
    pure (item_id, order_id)

  -- The part of a cancellation that gives back what the order holds, and the order then.
  unfoldable pub release_order : ℕ → MarketOrder → StoredPlayerProfile → Action MarketOrder
  release_order player_id o owner =
      if is_side o.side MarketSide.sell
      then (do
        escrow ← or_throw (find (is_escrow_of o) owner.reserved_items) escrow_mismatch
        throw_if (not (escrow.quantity == o.remaining_quantity)) escrow_mismatch
        change_player player_id (remove_reserved escrow.entry_id)
        add_inventory env player_id escrow.item_id escrow.quantity (some escrow.entry_id)
        pure (record o { escrow_item_id = none }))
      else (do
        change_player player_id (sub_reserved_coins o.reserved_coins)
        change_player player_id (add_coins o.reserved_coins)
        ledger env player_id o.reserved_coins LedgerReason.market_buy_release
        pure (record o { reserved_coins = pos 0 }))

  unfoldable pub cancel_market_order : ℕ → ℕ → Action ℕ
  cancel_market_order player_id order_id = do
    found ← gets (λ s. lookup order_id s.market_orders)
    o ← or_throw found order_not_owned
    throw_if (not (o.player_id == player_id)) order_not_owned
    throw_if (not (is_live o)) order_closed
    owner ← player player_id
    released ← release_order player_id o owner
    updated_at ← now env
    put_order (record released { status = MarketOrderStatus.cancelled; updated_at = updated_at })
    pure o.item_id
