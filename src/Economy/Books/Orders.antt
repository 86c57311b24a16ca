-- ===== src/Economy/Books/Orders.antt =====
-- Opening and cancelling market orders keep the book in order.
use vaelmour_game.Prelude.{
  ℕ, ◌≤◌, ◌≡◌, Bool, true, false, Bool-cases, inl, inr, leb, ◌||◌, ltb, arith,
}
use vaelmour_game.Data.{StoredPlayerProfile}
use vaelmour_game.Economy.Types.{Env, MarketOrder, MarketOrderStatus}
use vaelmour_game.Economy.Monad.{Action, Error, Void, ◌>>=◌, throw_if}
use vaelmour_game.Economy.Store.{max_safe_integer, put_order}
use vaelmour_game.Economy.Books.{
  KeepsBook, KeepsBook-put_order, KeepsBook-ledger, KeepsBook-add_inventory, KeepsBook-match,
  book_rules,
}
use vaelmour_game.Economy.Orders.{
  create_sell_order, create_buy_order, release_order, cancel_market_order,
}

-- What follows a guard may rely on it.
KeepsBook-guard :
    {A : Type 0} (c : Bool) (e : Error) {f : Void → Action A}
    → (c ≡ false → (a : Void) → KeepsBook (f a))
    → KeepsBook (throw_if c e >>= f)
unfolding ◌>>=◌ throw_if
KeepsBook-guard c e h = elim (Bool-cases c) [
  | inl refused ↦ rw refused (record { run = λ w b. tt })
  | inr passed ↦ rw passed (record { run = λ w b. (h passed tt).run w b })
]

at_least_one : (n : ℕ) → (leb n 0 || ltb max_safe_integer n) ≡ false → 1 ≤ n
at_least_one n h = ground arith

-- A cancelled order is not open.
cancelled-KeepsBook :
    (o : MarketOrder) (t : ℕ)
    → KeepsBook (put_order (record o { status = MarketOrderStatus.cancelled; updated_at = t }))
cancelled-KeepsBook o t = KeepsBook-put_order _ (λ (h : false ≡ true). cc)

module _ (env : Env) where
  pub create_sell_order-KeepsBook :
      (player_id entry_id quantity price_per_unit : ℕ)
      → KeepsBook (create_sell_order env player_id entry_id quantity price_per_unit)
  unfolding create_sell_order
  create_sell_order-KeepsBook player_id entry_id quantity price_per_unit =
      KeepsBook-guard _ _ λ some_units _.
        let units = at_least_one quantity some_units in
        search (book_rules, KeepsBook-put_order _ (λ _. units), KeepsBook-match env) depth 30

  pub create_buy_order-KeepsBook :
      (player_id item_id quantity price_per_unit : ℕ)
      → KeepsBook (create_buy_order env player_id item_id quantity price_per_unit)
  unfolding create_buy_order
  create_buy_order-KeepsBook player_id item_id quantity price_per_unit =
      KeepsBook-guard _ _ λ some_units _.
        let units = at_least_one quantity some_units in
        search
          (
            book_rules,
            KeepsBook-ledger env,
            KeepsBook-put_order _ (λ _. units),
            KeepsBook-match env,
          )
          depth 30

  release_order-KeepsBook :
      (player_id : ℕ) (o : MarketOrder) (owner : StoredPlayerProfile)
      → KeepsBook (release_order env player_id o owner)
  unfolding release_order
  release_order-KeepsBook player_id o owner =
      search (book_rules, KeepsBook-ledger env, KeepsBook-add_inventory env) depth 20

  pub cancel_market_order-KeepsBook :
      (player_id order_id : ℕ) → KeepsBook (cancel_market_order env player_id order_id)
  unfolding cancel_market_order
  cancel_market_order-KeepsBook player_id order_id =
      search (book_rules, release_order-KeepsBook, cancelled-KeepsBook) depth 20
