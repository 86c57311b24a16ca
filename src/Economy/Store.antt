-- ===== src/Economy/Store.antt =====
-- The helpers of server/economy/EconomyService.ts on the players and the ledger. The source holds
-- references into the map of players; the model reads and writes the map under the same key.
use vaelmour_game.Prelude.{
  ℕ, ◌+◌, ◌-◌, Bool, false, not, ◌||◌, Option, none, some, [], ◌∷◌, ◌++◌, ltb, leb, ◌==◌,
  if◌then◌else◌, find, remove_first, change_first,
}
use vaelmour_game.Prelude.Int.{ℤ, ◌+ℤ◌, ◌-ℤ◌}
use vaelmour_game.Prelude.Dict.{lookup, insert}
use vaelmour_game.Data.{StoredPlayerProfile, InventoryEntry, ReservedItemEntry, ItemDefinition}
use vaelmour_game.Economy.Types.{
  Env, MarketOrder, MarketFill, DirectTrade, PartySlotReservation, CoinLedgerRecord, LedgerReason,
}
use vaelmour_game.Economy.Monad.{
  Action, Void, ◌>>=◌, pure, or_throw, throw_if, gets, modify, random_uuid, now, player_not_found,
  trade_not_found, not_trade_participant, invalid_amount,
}

-- 2 ^ 53 - 1, the greatest value of `Number.isSafeInteger`
abbrev pub max_safe_integer : ℕ
max_safe_integer = 9007199254740991

abbrev pub positive : ℕ → Action Void
positive value = throw_if (leb value 0 || ltb max_safe_integer value) invalid_amount

unfoldable pub player : ℕ → Action StoredPlayerProfile
player id = do or_throw (← gets (λ s. lookup id s.players)) player_not_found

unfoldable pub put_player : ℕ → StoredPlayerProfile → Action Void
put_player id p = modify (λ s. record s { players = insert id p s.players })

-- A write to the fields of `this.player(state, id)`.
unfoldable pub change_player : ℕ → (StoredPlayerProfile → StoredPlayerProfile) → Action Void
change_player id f = do put_player id (f (← player id))

unfoldable pub put_order : MarketOrder → Action Void
put_order o = modify (λ s. record s { market_orders = insert o.id o s.market_orders })

unfoldable pub put_trade : DirectTrade → Action Void
put_trade t = modify (λ s. record s { trades = insert t.id t s.trades })

unfoldable pub put_reservation : PartySlotReservation → Action Void
put_reservation r =
    modify (λ s. record s { party_slot_reservations = insert r.id r s.party_slot_reservations })

unfoldable pub push_fill : MarketFill → Action Void
push_fill f = modify (λ s. record s { market_fills = s.market_fills ++ f ∷ [] })

unfoldable pub push_ledger : CoinLedgerRecord → Action Void
push_ledger r = modify (λ s. record s { ledger = s.ledger ++ r ∷ [] })

unfoldable pub trade : ℕ → Action DirectTrade
trade id = do or_throw (← gets (λ s. lookup id s.trades)) trade_not_found

abbrev pub is_participant : DirectTrade → ℕ → Bool
is_participant t id = t.requester_id == id || t.receiver_id == id

abbrev pub assert_participant : DirectTrade → ℕ → Action Void
assert_participant t id = throw_if (not (is_participant t id)) not_trade_participant

-- `player.coins += amount` and `player.reservedCoins += amount`
abbrev pub add_coins : ℤ → StoredPlayerProfile → StoredPlayerProfile
add_coins n p = record p { coins = p.coins +ℤ n }

abbrev pub sub_coins : ℤ → StoredPlayerProfile → StoredPlayerProfile
sub_coins n p = record p { coins = p.coins -ℤ n }

abbrev pub add_reserved_coins : ℤ → StoredPlayerProfile → StoredPlayerProfile
add_reserved_coins n p = record p { reserved_coins = p.reserved_coins +ℤ n }

abbrev pub sub_reserved_coins : ℤ → StoredPlayerProfile → StoredPlayerProfile
sub_reserved_coins n p = record p { reserved_coins = p.reserved_coins -ℤ n }

abbrev pub has_entry_id : ℕ → InventoryEntry → Bool
has_entry_id id e = e.entry_id == id

abbrev pub has_reserved_id : ℕ → ReservedItemEntry → Bool
has_reserved_id id e = e.entry_id == id

abbrev pub remove_reserved : ℕ → StoredPlayerProfile → StoredPlayerProfile
remove_reserved id p = record p {
  reserved_items = remove_first (has_reserved_id id) p.reserved_items;
}

abbrev pub push_reserved : ReservedItemEntry → StoredPlayerProfile → StoredPlayerProfile
push_reserved e p = record p { reserved_items = p.reserved_items ++ e ∷ [] }

abbrev pub push_inventory : InventoryEntry → StoredPlayerProfile → StoredPlayerProfile
push_inventory e p = record p { inventory = p.inventory ++ e ∷ [] }

-- `entry.quantity -= quantity; if (entry.quantity === 0) inventory.splice(index, 1)`
abbrev pub take_inventory : InventoryEntry → ℕ → StoredPlayerProfile → StoredPlayerProfile
take_inventory e quantity p = record p {
  inventory =
      if e.quantity == quantity
      then remove_first (has_entry_id e.entry_id) p.inventory
      else change_first (has_entry_id e.entry_id)
          (λ x. record x { quantity = x.quantity - quantity }) p.inventory;
}

abbrev pub is_stackable : Option ItemDefinition → Bool
is_stackable none = false
is_stackable (some d) = d.stackable

module _ (env : Env) where
  unfoldable pub ledger : ℕ → ℤ → LedgerReason → Action Void
  ledger id amount reason = do
    p ← player id
    record_id ← random_uuid env
    created_at ← now env
    push_ledger (record {
      id = record_id;
      player_id = p.player_id;
      amount = amount;
      reason = reason;
      resulting_balance = p.coins;
      created_at = created_at;
    })

  -- `preferredId ?? randomUUID()`
  unfoldable pub or_random : Option ℕ → Action ℕ
  or_random (some id) = pure id
  or_random none = random_uuid env

  abbrev pub same_stack : ℕ → StoredPlayerProfile → Option InventoryEntry
  same_stack item_id p =
      if is_stackable (env.catalog item_id)
      then find (λ e. e.item_id == item_id) p.inventory
      else none

  unfoldable pub add_inventory : ℕ → ℕ → ℕ → Option ℕ → Action Void
  add_inventory id item_id quantity preferred_id = do
    p ← player id
    elim (same_stack item_id p) [
      | some _ ↦ change_player id (λ q. record q {
        inventory =
            change_first (λ e. e.item_id == item_id)
              (λ e. record e { quantity = e.quantity + quantity }) q.inventory;
      })
      | none ↦ or_random preferred_id >>= λ entry_id.
          change_player id (
            push_inventory (record { entry_id = entry_id; item_id = item_id; quantity = quantity }))
    ]
