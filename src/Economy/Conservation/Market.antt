-- ===== src/Economy/Conservation/Market.antt =====
-- The market's transactions conserve the wealth.
use vaelmour_game.Prelude.{
  ℕ, zero, suc, ◌*◌, ◌≡◌, refl, false, not, arith, ◌==◌, Bool-cases, inl, inr,
}
use vaelmour_game.Prelude.Int.{is_zero, ℤ, pos, ◌-ℤ◌, int_laws}
use vaelmour_game.Data.{StoredPlayerProfile, ReservedItemEntry}
use vaelmour_game.Economy.Types.{Env, MarketOrder, LedgerReason}
use vaelmour_game.Economy.Monad.{◌>>◌, when, fuel}
use vaelmour_game.Economy.Store.{change_player, add_coins, sub_coins, ledger}
use vaelmour_game.Economy.Market.{settle_fill, match_orders, match, take_escrow, transaction_fee}
use vaelmour_game.Economy.Valuation.{
  Shifts, Shifts-after, Shifts-step, Shifts-pure, Shifts-throw, Shifts-or_throw, Shifts-throw_if,
  Shifts-gets, Shifts-player, Shifts-when, Shifts-option,
}
use vaelmour_game.Economy.Totals.{
  coins_and_fees, add_coins-Shifts, sub_coins-Shifts, sub_reserved_coins-Shifts, keeping,
  other-Shifts, ledger-Shifts, add_inventory-Shifts,
}

is_zero-eq : (n : ℤ) → not (is_zero n) ≡ false → n ≡ pos 0
is_zero-eq n h = ground arith

take_escrow-coins :
    (s : MarketOrder) (e : ReservedItemEntry) (n : ℕ) (p : StoredPlayerProfile)
    → ((take_escrow s e n p).coins ≡ p.coins)
      × ((take_escrow s e n p).reserved_coins ≡ p.reserved_coins)
take_escrow-coins s e n p = elim (Bool-cases (e.quantity == n)) [
  | inl h ↦ rw h (refl, refl)
  | inr h ↦ rw h (refl, refl)
]

take_escrow-Shifts :
    (s : MarketOrder) (e : ReservedItemEntry) (n : ℕ)
    → Shifts coins_and_fees (pos 0) (change_player s.player_id (take_escrow s e n))
take_escrow-Shifts s e n =
    other-Shifts s.player_id (take_escrow s e n) (λ p. (take_escrow-coins s e n p).0)
      (λ p. (take_escrow-coins s e n p).1)

module _ (env : Env) where
  -- The refund of what the buyer reserved above the price, if there is one.
  refund-Shifts :
      (id : ℕ) (n : ℤ)
      → Shifts coins_and_fees n (
          when
            (not (is_zero n))
            (change_player id (add_coins n) >> ledger env id n LedgerReason.market_buy_release))
  refund-Shifts id n = Shifts-when coins_and_fees _ (is_zero-eq n) (
      Shifts-step coins_and_fees (pos 0) (grind int_laws) (add_coins-Shifts id n)
        λ _. ledger-Shifts env id n LedgerReason.market_buy_release)

  -- The fee moves from the seller to the ledger.
  fee-Shifts :
      (id fee : ℕ)
      → Shifts coins_and_fees (pos 0) (
          when (not (fee == 0)) (
            change_player id (sub_coins (pos fee))
            >> ledger env id (pos 0 -ℤ pos fee) LedgerReason.market_transaction_fee))
  fee-Shifts id fee =
      Shifts-when coins_and_fees _ (λ _. refl)
        (Shifts-step coins_and_fees _ (grind int_laws) (sub_coins-Shifts id (pos fee))
          λ _. ledger-Shifts env id (pos 0 -ℤ pos fee) LedgerReason.market_transaction_fee)

  pub settle_fill-Shifts :
      (b s : MarketOrder) (quantity unit_price : ℕ)
      → Shifts coins_and_fees (pos 0) (settle_fill env b s quantity unit_price)
  unfolding settle_fill
  settle_fill-Shifts b s quantity unit_price =
      Shifts-after coins_and_fees (Shifts-player coins_and_fees b.player_id) λ buyer.
        Shifts-after coins_and_fees (Shifts-player coins_and_fees s.player_id) λ seller.
          Shifts-after coins_and_fees (Shifts-or_throw coins_and_fees _ _) λ escrow.
            Shifts-after coins_and_fees (Shifts-throw_if coins_and_fees _ _) λ _.
              Shifts-after coins_and_fees (Shifts-throw_if coins_and_fees _ _) λ _.
                Shifts-step coins_and_fees (pos (b.price_per_unit * quantity)) (grind int_laws)
                  (sub_reserved_coins-Shifts b.player_id (pos (b.price_per_unit * quantity)))
                  λ _.
                    Shifts-step coins_and_fees (pos (unit_price * quantity)) (grind int_laws)
                      (refund-Shifts b.player_id
                        (pos (b.price_per_unit * quantity) -ℤ pos (unit_price * quantity)))
                      λ _.
                        Shifts-step coins_and_fees (pos 0) (grind int_laws)
                          (add_coins-Shifts s.player_id (pos (unit_price * quantity)))
                          λ _.
                            Shifts-after coins_and_fees
                              (ledger-Shifts env b.player_id (pos 0) LedgerReason.market_buy)
                              λ _.
                                Shifts-after coins_and_fees
                                  (ledger-Shifts env s.player_id _ LedgerReason.market_sell)
                                  λ _.
                                    Shifts-after coins_and_fees
                                      (fee-Shifts s.player_id
                                        (transaction_fee (unit_price * quantity)))
                                      λ _.
                                        Shifts-after coins_and_fees
                                          (take_escrow-Shifts s escrow quantity)
                                          λ _. search (keeping, add_inventory-Shifts env) depth 12

  match_orders-Shifts :
      (rounds item_id : ℕ) → Shifts coins_and_fees (pos 0) (match_orders env rounds item_id)
  unfolding match_orders
  match_orders-Shifts zero item_id = Shifts-throw coins_and_fees (pos 0) fuel
  match_orders-Shifts (suc rounds) item_id =
      Shifts-after coins_and_fees (Shifts-gets coins_and_fees _) λ pair.
        Shifts-option coins_and_fees pair _ _ (Shifts-pure coins_and_fees tt) λ (b, s).
          Shifts-after coins_and_fees (settle_fill-Shifts b s _ _)
            λ _. match_orders-Shifts rounds item_id

  -- However many fills a matching makes, the wealth stays.
  pub match-Shifts : (item_id : ℕ) → Shifts coins_and_fees (pos 0) (match env item_id)
  unfolding match
  match-Shifts item_id =
      Shifts-after coins_and_fees (Shifts-gets coins_and_fees _)
        λ rounds. match_orders-Shifts rounds item_id
