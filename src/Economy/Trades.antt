-- ===== src/Economy/Trades.antt =====
-- The direct trades of server/economy/EconomyService.ts: two offers in escrow, confirmed by revision.
use vaelmour_game.Prelude.{
  ℕ, ◌+◌, Bool, true, false, not, ◌&&◌, ◌||◌, Option, none, some, List, [], ◌∷◌, ◌++◌, ltb, ◌==◌,
  if◌then◌else◌, find, keep, any,
}
use vaelmour_game.Prelude.Int.{is_zero, ℤ, pos, ltb_ℤ}
use vaelmour_game.Prelude.Dict.{lookup, insert, erase, values}
use vaelmour_game.Data.{StoredPlayerProfile, ReservedItemEntry, EscrowLocation, in_trade, includes}
use vaelmour_game.Economy.Types.{Env, DirectTrade, DirectTradeStatus, TradeOfferItem, is_pending}
use vaelmour_game.Economy.Monad.{
  Action, Void, ◌>>=◌, ◌>>◌, pure, or_throw, throw_if, gets, when, for_each, random_uuid, now,
  player_not_found, item_not_available, invalid_quantity, not_enough_items,
  insufficient_available_coins, self_trade, player_offline, expedition_locked, active_trade_exists,
  trade_not_acceptable, trade_not_active, duplicate_item, trade_coin_mismatch,
}
use vaelmour_game.Economy.Store.{
  positive, player, change_player, put_trade, trade, is_participant, assert_participant, add_coins,
  sub_coins, add_reserved_coins, sub_reserved_coins, has_entry_id, remove_reserved, push_reserved,
  take_inventory, is_stackable, add_inventory,
}

-- The sets `online` and `combatLocked` of the service.
pub record Availability : Type 0 where
  pub online : List ℕ
  pub combat_locked : List ℕ

abbrev pub set_member : Bool → ℕ → List ℕ → List ℕ
set_member there id ids =
    if there
    then (if includes ids id then ids else ids ++ id ∷ [])
    else keep (λ x. not (x == id)) ids

unfoldable pub set_availability : ℕ → Bool → Bool → Availability → Availability
set_availability id online combat_locked a = record {
  online = set_member online id a.online;
  combat_locked = set_member combat_locked id a.combat_locked;
}

pub record TradeOfferInput : Type 0 where
  pub items : List (ℕ × ℕ)
  pub coins : ℤ

-- `trade.coins[id] ?? 0`
abbrev pub offered_coins : DirectTrade → ℕ → ℤ
offered_coins t id = elim (lookup id t.coins) [ none ↦ pos 0 | some n ↦ n ]

abbrev pub is_offered : TradeOfferItem → ReservedItemEntry → Bool
is_offered offer e = e.entry_id == offer.item_entry_id && in_trade e

-- `trade.id !== exceptTradeId`: without an exception every trade counts.
abbrev pub is_other : Option ℕ → ℕ → Bool
is_other none id = true
is_other (some except) id = not (id == except)

abbrev pub is_requested : DirectTrade → Bool
is_requested t = elim t.status [ DirectTradeStatus.requested ↦ true | _ ↦ false ]

abbrev pub is_active : DirectTrade → Bool
is_active t = elim t.status [ DirectTradeStatus.active ↦ true | _ ↦ false ]

abbrev pub is_completed : DirectTrade → Bool
is_completed t = elim t.status [ DirectTradeStatus.completed ↦ true | _ ↦ false ]

module _ (env : Env) where
  unfoldable pub release_item : ℕ → TradeOfferItem → Action Void
  release_item player_id offer = do
    p ← player player_id
    elim (find (is_offered offer) p.reserved_items) [
      | none ↦ pure tt
      | some e ↦
          change_player player_id (remove_reserved e.entry_id)
          >> add_inventory env player_id e.item_id e.quantity (some e.entry_id)
    ]

  -- `releaseTradeOffer`, with the trade as it leaves it.
  unfoldable pub release_trade_offer : ℕ → DirectTrade → Action DirectTrade
  release_trade_offer player_id t = do
    for_each (release_item player_id) (keep (λ i. i.player_id == player_id) t.items)
    let coins = offered_coins t player_id
    p ← player player_id
    when (not (is_zero coins)) (do
      throw_if (ltb_ℤ p.reserved_coins coins) trade_coin_mismatch
      change_player player_id (sub_reserved_coins coins)
      change_player player_id (add_coins coins))
    pure (record t {
      items = keep (λ i. not (i.player_id == player_id)) t.items;
      coins = erase player_id t.coins;
    })

  unfoldable pub assert_trade_available : Availability → ℕ → Option ℕ → Action Void
  assert_trade_available a player_id except_trade_id = do
    throw_if (not (includes a.online player_id)) player_offline
    throw_if (includes a.combat_locked player_id) expedition_locked
    trades ← gets (λ s. values s.trades)
    throw_if
        (any (λ t. is_other except_trade_id t.id && is_participant t player_id && is_pending t)
          trades)
        active_trade_exists

  unfoldable pub find_player_by_name : List StoredPlayerProfile → ℕ → Option StoredPlayerProfile
  find_player_by_name players input =
      find (λ p. p.name_key == env.normalize_player_name input) players

  unfoldable pub request_trade : Availability → ℕ → ℕ → Action ℕ
  request_trade a requester_id receiver_name = do
    player requester_id
    players ← gets (λ s. values s.players)
    receiver ← or_throw (find_player_by_name players receiver_name) player_not_found
    throw_if (receiver.player_id == requester_id) self_trade
    assert_trade_available a requester_id none
    assert_trade_available a receiver.player_id none
    created_at ← now env
    id ← random_uuid env
    put_trade (record {
      id = id;
      requester_id = requester_id;
      receiver_id = receiver.player_id;
      status = DirectTradeStatus.requested;
      revision = 0;
      requester_confirmed_revision = none;
      receiver_confirmed_revision = none;
      items = [];
      coins = [];
      created_at = created_at;
      updated_at = created_at;
    })
    pure id

  unfoldable pub accept_trade : Availability → ℕ → ℕ → Action ℕ
  accept_trade a player_id trade_id = do
    t ← trade trade_id
    throw_if (not (t.receiver_id == player_id) || not (is_requested t)) trade_not_acceptable
    assert_trade_available a t.requester_id (some t.id)
    assert_trade_available a t.receiver_id (some t.id)
    updated_at ← now env
    put_trade (record t { status = DirectTradeStatus.active; updated_at = updated_at })
    pure t.id

  -- One round of the loop over `offer.items`.
  unfoldable pub offer_item : ℕ → ℕ × ℕ → DirectTrade → Action DirectTrade
  offer_item player_id (entry_id, quantity) t = do
    positive quantity
    p ← player player_id
    source ← or_throw (find (has_entry_id entry_id) p.inventory) item_not_available
    throw_if (not (is_stackable (env.catalog source.item_id)) && not (quantity == 1))
        invalid_quantity
    throw_if (ltb source.quantity quantity) not_enough_items
    escrow_id ← if quantity == source.quantity then pure source.entry_id else random_uuid env
    change_player player_id (take_inventory source quantity)
    change_player player_id (
        push_reserved (record {
          entry_id = escrow_id;
          item_id = source.item_id;
          quantity = quantity;
          location = EscrowLocation.trade_escrow;
        }))
    id ← random_uuid env
    pure (record t {
      items =
          t.items
          ++ record {
            id = id;
            trade_id = t.id;
            player_id = player_id;
            item_entry_id = escrow_id;
            item_id = source.item_id;
            quantity = quantity;
          }
            ∷ [];
    })

  unfoldable pub offer_items : ℕ → List ℕ → List (ℕ × ℕ) → DirectTrade → Action DirectTrade
  offer_items player_id seen [] t = pure t
  offer_items player_id seen (r ∷ requested) t =
      throw_if (includes seen r.0) duplicate_item
      >> (offer_item player_id r t >>= λ t'. offer_items player_id (r.0 ∷ seen) requested t')

  unfoldable pub update_trade_offer : ℕ → ℕ → TradeOfferInput → Action ℕ
  update_trade_offer player_id trade_id offer = do
    t ← trade trade_id
    assert_participant t player_id
    throw_if (not (is_active t)) trade_not_active
    player player_id
    released ← release_trade_offer player_id t
    p ← player player_id
    throw_if (ltb_ℤ offer.coins (pos 0) || ltb_ℤ p.coins offer.coins) insufficient_available_coins
    offered ← offer_items player_id [] offer.items released
    change_player player_id (sub_coins offer.coins)
    change_player player_id (add_reserved_coins offer.coins)
    updated_at ← now env
    put_trade (record offered {
      coins = insert player_id offer.coins offered.coins;
      revision = offered.revision + 1;
      requester_confirmed_revision = none;
      receiver_confirmed_revision = none;
      updated_at = updated_at;
    })
    pure t.id
