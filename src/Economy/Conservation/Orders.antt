-- ===== src/Economy/Conservation/Orders.antt =====
-- Opening and cancelling market orders conserve the wealth.
use vaelmour_game.Prelude.{ℕ, ◌+◌, ◌*◌, not, arith, ◌==◌}
use vaelmour_game.Prelude.Int.{pos, ◌-ℤ◌, int_laws}
use vaelmour_game.Data.{StoredPlayerProfile}
use vaelmour_game.Economy.Types.{Env, MarketOrder, MarketSide, LedgerReason}
use vaelmour_game.Economy.Monad.{when}
use vaelmour_game.Economy.Store.{ledger}
use vaelmour_game.Economy.Valuation.{
  Shifts, Shifts-eq, Shifts-after, Shifts-step, Shifts-pure, Shifts-throw_if, Shifts-random_uuid,
  Shifts-now, Shifts-player, Shifts-put_order, Shifts-when, Shifts-if,
}
use vaelmour_game.Economy.Totals.{
  coins_and_fees, keeping, add_coins-Shifts, sub_coins-Shifts, add_reserved_coins-Shifts,
  sub_reserved_coins-Shifts, ledger-Shifts, add_inventory-Shifts,
}
use vaelmour_game.Economy.Market.{buy_order_fee, is_side}
use vaelmour_game.Economy.Orders.{
  create_sell_order, create_buy_order, release_order, cancel_market_order,
}
use vaelmour_game.Economy.Conservation.Market.{match-Shifts}

module _ (env : Env) where
  pub create_sell_order-Shifts :
      (player_id entry_id quantity price_per_unit : ℕ)
      → Shifts coins_and_fees
          (pos 0)
          (create_sell_order env player_id entry_id quantity price_per_unit)
  unfolding create_sell_order
  create_sell_order-Shifts player_id entry_id quantity price_per_unit =
      search (keeping, match-Shifts env) depth 20

  order_fee-Shifts :
      (id fee : ℕ)
      → Shifts coins_and_fees (pos fee) (
          when
            (not (fee == 0))
            (ledger env id (pos 0 -ℤ pos fee) LedgerReason.market_buy_order_fee))
  order_fee-Shifts id fee =
      Shifts-when coins_and_fees _ (λ none_due. ground arith)
        (Shifts-eq coins_and_fees (pos fee) (grind int_laws)
          (ledger-Shifts env id (pos 0 -ℤ pos fee) LedgerReason.market_buy_order_fee))

  pub create_buy_order-Shifts :
      (player_id item_id quantity price_per_unit : ℕ)
      → Shifts coins_and_fees
          (pos 0)
          (create_buy_order env player_id item_id quantity price_per_unit)
  unfolding create_buy_order
  create_buy_order-Shifts player_id item_id quantity price_per_unit =
      let reserve = quantity * price_per_unit in
      let fee = buy_order_fee reserve in
      Shifts-after coins_and_fees (Shifts-throw_if coins_and_fees _ _) λ _.
        Shifts-after coins_and_fees (Shifts-throw_if coins_and_fees _ _) λ _.
          Shifts-after coins_and_fees (Shifts-throw_if coins_and_fees _ _) λ _.
            Shifts-after coins_and_fees (Shifts-throw_if coins_and_fees _ _) λ _.
              Shifts-after coins_and_fees (Shifts-player coins_and_fees player_id) λ buyer.
                Shifts-after coins_and_fees (Shifts-throw_if coins_and_fees _ _) λ _.
                  Shifts-step coins_and_fees (pos (reserve + fee)) (grind int_laws)
                    (sub_coins-Shifts player_id (pos (reserve + fee)))
                    λ _.
                      Shifts-step coins_and_fees (pos fee) (grind int_laws)
                        (add_reserved_coins-Shifts player_id (pos reserve))
                        λ _.
                          Shifts-after coins_and_fees (Shifts-now coins_and_fees env) λ created_at.
                            Shifts-after coins_and_fees (Shifts-random_uuid coins_and_fees env)
                              λ order_id.
                                Shifts-after coins_and_fees (Shifts-put_order coins_and_fees _) λ _.
                                  Shifts-after coins_and_fees
                                    (ledger-Shifts env player_id _ LedgerReason.market_buy_reserve)
                                    λ _.
                                      Shifts-step coins_and_fees (pos 0) (grind int_laws)
                                        (order_fee-Shifts player_id fee)
                                        λ _. search (keeping, match-Shifts env)

  release_order-Shifts :
      (player_id : ℕ) (o : MarketOrder) (owner : StoredPlayerProfile)
      → Shifts coins_and_fees (pos 0) (release_order env player_id o owner)
  unfolding release_order
  release_order-Shifts player_id o owner =
      Shifts-if coins_and_fees (is_side o.side MarketSide.sell)
        (search (keeping, add_inventory-Shifts env) depth 10)
        (Shifts-step coins_and_fees o.reserved_coins (grind int_laws)
          (sub_reserved_coins-Shifts player_id o.reserved_coins)
          λ _.
            Shifts-step coins_and_fees (pos 0) (grind int_laws)
              (add_coins-Shifts player_id o.reserved_coins)
              λ _.
                Shifts-after coins_and_fees
                  (ledger-Shifts env player_id _ LedgerReason.market_buy_release)
                  λ _. Shifts-pure coins_and_fees _)

  pub cancel_market_order-Shifts :
      (player_id order_id : ℕ)
      → Shifts coins_and_fees (pos 0) (cancel_market_order env player_id order_id)
  unfolding cancel_market_order
  cancel_market_order-Shifts player_id order_id = search (keeping, release_order-Shifts) depth 14
