-- ===== src/Economy/TradeEnd.antt =====
-- How a direct trade of server/economy/EconomyService.ts ends: by two confirmations of one revision,
-- by a participant who closes it, or by the cleanup at startup.
use vaelmour_game.Prelude.{
  ℕ, Bool, true, false, not, ◌&&◌, ◌||◌, Option, none, some, [], ◌==◌, if◌then◌else◌, find, keep,
  length,
}
use vaelmour_game.Prelude.Int.{◌-ℤ◌, ltb_ℤ}
use vaelmour_game.Prelude.Dict.{values}
use vaelmour_game.Data.{ReservedItemEntry}
use vaelmour_game.Economy.Types.{
  Env, DirectTrade, DirectTradeStatus, TradeOfferItem, is_pending, LedgerReason,
}
use vaelmour_game.Economy.Monad.{
  Action, Void, ◌>>=◌, ◌>>◌, pure, or_throw, throw_if, gets, when, for_each, now,
  stale_trade_revision, trade_item_missing, trade_coin_mismatch, type_error,
}
use vaelmour_game.Economy.Store.{
  player, change_player, put_trade, trade, assert_participant, add_coins, sub_reserved_coins,
  remove_reserved, is_stackable, ledger, add_inventory,
}
use vaelmour_game.Economy.Trades.{
  is_offered, offered_coins, is_active, is_completed, release_trade_offer,
}

-- `owner.reservedItems.find((item) => item.entryId === offer.itemEntryId)`
abbrev pub has_offer_id : TradeOfferItem → ReservedItemEntry → Bool
has_offer_id offer e = e.entry_id == offer.item_entry_id

-- `revision` was confirmed: `confirmedRevision === revision`.
abbrev pub confirmed : Option ℕ → ℕ → Bool
confirmed none revision = false
confirmed (some r) revision = r == revision

module _ (env : Env) where
  unfoldable pub check_offer : TradeOfferItem → Action Void
  check_offer offer = do
    owner ← player offer.player_id
    e ← or_throw (find (is_offered offer) owner.reserved_items) trade_item_missing
    throw_if (not (e.quantity == offer.quantity)) trade_item_missing

  unfoldable pub hand_over : ℕ → ℕ → TradeOfferItem → Action Void
  hand_over owner_id receiver_id offer = do
    owner ← player owner_id
    e ← or_throw (find (has_offer_id offer) owner.reserved_items) type_error
    change_player owner_id (remove_reserved e.entry_id)
    add_inventory env receiver_id e.item_id e.quantity
        (if is_stackable (env.catalog e.item_id) then none else some e.entry_id)

  -- The trade as `executeTrade` leaves it.
  unfoldable pub execute_trade : DirectTrade → Action DirectTrade
  execute_trade t = do
    a ← player t.requester_id
    b ← player t.receiver_id
    for_each check_offer t.items
    let a_coins = offered_coins t a.player_id
    let b_coins = offered_coins t b.player_id
    throw_if (ltb_ℤ a.reserved_coins a_coins || ltb_ℤ b.reserved_coins b_coins) trade_coin_mismatch
    for_each
        (λ offer.
          if offer.player_id == a.player_id
          then hand_over t.requester_id t.receiver_id offer
          else hand_over t.receiver_id t.requester_id offer)
        t.items
    change_player t.requester_id (sub_reserved_coins a_coins)
    change_player t.receiver_id (sub_reserved_coins b_coins)
    change_player t.requester_id (add_coins b_coins)
    change_player t.receiver_id (add_coins a_coins)
    ledger env t.requester_id (b_coins -ℤ a_coins) LedgerReason.direct_trade
    ledger env t.receiver_id (a_coins -ℤ b_coins) LedgerReason.direct_trade
    pure (record t { items = []; coins = []; status = DirectTradeStatus.completed })

  -- The writes to the two confirmations.
  abbrev pub confirm_side : ℕ → ℕ → DirectTrade → DirectTrade
  confirm_side player_id revision t =
      if player_id == t.requester_id
      then record t { requester_confirmed_revision = some revision }
      else record t { receiver_confirmed_revision = some revision }

  -- `confirmTrade` of an active trade.
  unfoldable pub confirm_active : ℕ → ℕ → DirectTrade → Action ℕ
  confirm_active player_id revision t = do
    throw_if (not (revision == t.revision)) stale_trade_revision
    let c = confirm_side player_id revision t
    ended ←
        elim (confirmed c.requester_confirmed_revision revision
          && confirmed c.receiver_confirmed_revision revision) [
            | true ↦ execute_trade c
            | false ↦ pure c
          ]
    updated_at ← now env
    put_trade (record ended { updated_at = updated_at })
    pure t.id

  unfoldable pub confirm_trade : ℕ → ℕ → ℕ → Action ℕ
  confirm_trade player_id trade_id revision = do
    t ← trade trade_id
    assert_participant t player_id
    elim (is_active t) [ false ↦ pure t.id | true ↦ confirm_active player_id revision t ]

  -- The loop of `closeTrade` over the two participants.
  unfoldable pub release_both : DirectTrade → Action DirectTrade
  release_both t = do
    player t.requester_id
    t' ← release_trade_offer env t.requester_id t
    player t.receiver_id
    release_trade_offer env t.receiver_id t'

  unfoldable pub close_open : DirectTradeStatus → DirectTrade → Action ℕ
  close_open status t = do
    released ← release_both t
    updated_at ← now env
    put_trade (record released {
      status = status;
      requester_confirmed_revision = none;
      receiver_confirmed_revision = none;
      updated_at = updated_at;
    })
    pure t.id

  -- `closeTrade`, with `CANCELLED` for `cancelTrade` and `DECLINED` for `declineTrade`.
  unfoldable pub close_trade : ℕ → ℕ → DirectTradeStatus → Action ℕ
  close_trade player_id trade_id status = do
    t ← trade trade_id
    assert_participant t player_id
    elim (is_completed t) [ true ↦ pure t.id | false ↦ close_open status t ]

  unfoldable pub cleanup_trade : DirectTrade → Action Void
  cleanup_trade t = when (is_pending t) (do
    released ← release_both t
    updated_at ← now env
    put_trade (record released { status = DirectTradeStatus.cancelled; updated_at = updated_at }))

  -- The number of the trades that were pending.
  unfoldable pub cleanup_orphaned_trades : Action ℕ
  cleanup_orphaned_trades = do
    trades ← gets (λ s. values s.trades)
    for_each cleanup_trade trades
    pure (length (keep is_pending trades))
