-- ===== src/Economy/Totals.antt =====
-- The quantity that the economy conserves: the coins of all players, free and reserved, plus the fees
-- that the ledger records as taken, less the rewards and grants that it records as given.
use vaelmour_game.Prelude.{ℕ, ◌≡◌, refl, Option, none, some}
use vaelmour_game.Prelude.Int.{ℤ, pos, ◌+ℤ◌, ◌-ℤ◌, int_laws}
use vaelmour_game.Data.{StoredPlayerProfile, InventoryEntry, ReservedItemEntry}
use vaelmour_game.Economy.Types.{EconomyState, Env, LedgerReason}
use vaelmour_game.Economy.Store.{
  change_player, ledger, add_inventory, or_random, same_stack, take_inventory, push_reserved,
  remove_reserved, add_coins, sub_coins, add_reserved_coins, sub_reserved_coins,
}
use vaelmour_game.Economy.Valuation.{
  Valuation, value, Shifts, Shifts-after, Shifts-eq, Shifts-change_player, Shifts-player,
  Shifts-random_uuid, Shifts-now, Shifts-push_ledger, Shifts-pure, Shifts-option, Shifts-throw,
  Shifts-or_throw, Shifts-throw_if, Shifts-gets, Shifts-trade, Shifts-put_order, Shifts-put_trade,
  Shifts-put_reservation, Shifts-push_fill, Shifts-if,
}

-- What the ledger records as going out of the game, or, as a negative amount, coming into it: a fee
-- stands there as a negative amount, a reward or a grant as a positive one.
abbrev pub fee_taken : LedgerReason → ℤ → ℤ
fee_taken LedgerReason.market_buy_order_fee amount = pos 0 -ℤ amount
fee_taken LedgerReason.market_transaction_fee amount = pos 0 -ℤ amount
fee_taken LedgerReason.rift_reward amount = pos 0 -ℤ amount
fee_taken LedgerReason.admin amount = pos 0 -ℤ amount
fee_taken _ amount = pos 0

abbrev pub coins_and_fees : Valuation
coins_and_fees = record {
  on_player = λ _ p. p.coins +ℤ p.reserved_coins;
  on_ledger = λ r. fee_taken r.reason r.amount;
}

-- All coins that players hold, and all fees that were ever taken, less all that was ever given.
abbrev pub wealth : EconomyState → ℤ
wealth = value coins_and_fees

pub add_coins-Shifts : (id : ℕ) (n : ℤ) → Shifts coins_and_fees n (change_player id (add_coins n))
add_coins-Shifts id n = Shifts-change_player coins_and_fees n id (add_coins n) (λ p. grind int_laws)

pub sub_coins-Shifts :
    (id : ℕ) (n : ℤ) → Shifts coins_and_fees (pos 0 -ℤ n) (change_player id (sub_coins n))
sub_coins-Shifts id n =
    Shifts-change_player coins_and_fees (pos 0 -ℤ n) id (sub_coins n) (λ p. grind int_laws)

pub add_reserved_coins-Shifts :
    (id : ℕ) (n : ℤ) → Shifts coins_and_fees n (change_player id (add_reserved_coins n))
add_reserved_coins-Shifts id n =
    Shifts-change_player coins_and_fees n id (add_reserved_coins n) (λ p. grind int_laws)

pub sub_reserved_coins-Shifts :
    (id : ℕ) (n : ℤ) → Shifts coins_and_fees (pos 0 -ℤ n) (change_player id (sub_reserved_coins n))
sub_reserved_coins-Shifts id n =
    Shifts-change_player coins_and_fees (pos 0 -ℤ n) id (sub_reserved_coins n) (λ p. grind int_laws)

-- A write that leaves both purses alone.
pub other-Shifts :
    (id : ℕ) (f : StoredPlayerProfile → StoredPlayerProfile)
    → ((p : StoredPlayerProfile) → (f p).coins ≡ p.coins)
    → ((p : StoredPlayerProfile) → (f p).reserved_coins ≡ p.reserved_coins)
    → Shifts coins_and_fees (pos 0) (change_player id f)
other-Shifts id f hc hr =
    Shifts-change_player coins_and_fees (pos 0) id f (λ p. rw (hc p, hr p) (grind int_laws))

-- The three writes to the items of a player.
pub take_inventory-Shifts :
    (id : ℕ) (e : InventoryEntry) (n : ℕ)
    → Shifts coins_and_fees (pos 0) (change_player id (take_inventory e n))
take_inventory-Shifts id e n = other-Shifts id (take_inventory e n) (λ p. refl) (λ p. refl)

pub push_reserved-Shifts :
    (id : ℕ) (e : ReservedItemEntry)
    → Shifts coins_and_fees (pos 0) (change_player id (push_reserved e))
push_reserved-Shifts id e = other-Shifts id (push_reserved e) (λ p. refl) (λ p. refl)

pub remove_reserved-Shifts :
    (id entry_id : ℕ) → Shifts coins_and_fees (pos 0) (change_player id (remove_reserved entry_id))
remove_reserved-Shifts id entry_id =
    other-Shifts id (remove_reserved entry_id) (λ p. refl) (λ p. refl)

pub ruleset keeping = (
  Shifts-after, Shifts-pure, Shifts-throw, Shifts-or_throw, Shifts-throw_if, Shifts-gets,
  Shifts-random_uuid, Shifts-now, Shifts-player, Shifts-trade, Shifts-put_order, Shifts-put_trade,
  Shifts-put_reservation, Shifts-push_fill, Shifts-if, take_inventory-Shifts, push_reserved-Shifts,
  remove_reserved-Shifts,
)

module _ (env : Env) where
  pub ledger-Shifts :
      (id : ℕ) (n : ℤ) (reason : LedgerReason)
      → Shifts coins_and_fees (fee_taken reason n) (ledger env id n reason)
  unfolding ledger
  ledger-Shifts id n reason = Shifts-after coins_and_fees (Shifts-player coins_and_fees id) λ p.
      Shifts-after coins_and_fees (Shifts-random_uuid coins_and_fees env) λ record_id.
        Shifts-after coins_and_fees (Shifts-now coins_and_fees env)
          λ created_at. Shifts-push_ledger coins_and_fees _

  or_random-Shifts : (id : Option ℕ) → Shifts coins_and_fees (pos 0) (or_random env id)
  unfolding or_random
  or_random-Shifts none = Shifts-random_uuid coins_and_fees env
  or_random-Shifts (some id) = Shifts-pure coins_and_fees id

  pub add_inventory-Shifts :
      (id item_id quantity : ℕ) (preferred_id : Option ℕ)
      → Shifts coins_and_fees (pos 0) (add_inventory env id item_id quantity preferred_id)
  unfolding add_inventory
  add_inventory-Shifts id item_id quantity preferred_id =
      Shifts-after coins_and_fees (Shifts-player coins_and_fees id) λ p.
        Shifts-option coins_and_fees (same_stack env item_id p) _ _
          (Shifts-after coins_and_fees (or_random-Shifts preferred_id)
            (λ entry_id. other-Shifts id _ (λ q. refl) (λ q. refl)))
          (λ _. other-Shifts id _ (λ q. refl) (λ q. refl))
