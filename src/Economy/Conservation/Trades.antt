-- ===== src/Economy/Conservation/Trades.antt =====
-- The direct trades conserve the wealth.
use vaelmour_game.Prelude.{ℕ, refl, Option, List, [], ◌∷◌, find}
use vaelmour_game.Prelude.Int.{ℤ, pos, ◌+ℤ◌, int_laws}
use vaelmour_game.Economy.Types.{Env, LedgerReason, DirectTrade, TradeOfferItem, DirectTradeStatus}
use vaelmour_game.Economy.Monad.{Action, ◌>>◌}
use vaelmour_game.Economy.Store.{change_player, add_coins, sub_reserved_coins}
use vaelmour_game.Economy.Valuation.{
  Shifts, Shifts-after, Shifts-step, Shifts-pure, Shifts-throw_if, Shifts-gets, Shifts-player,
  Shifts-trade, Shifts-when, Shifts-option, Shifts-if, Shifts-bool, Shifts-for_each,
}
use vaelmour_game.Economy.Totals.{
  coins_and_fees, keeping, add_coins-Shifts, sub_coins-Shifts, add_reserved_coins-Shifts,
  sub_reserved_coins-Shifts, ledger-Shifts, add_inventory-Shifts,
}
use vaelmour_game.Economy.Trades.{
  Availability, TradeOfferInput, offered_coins, is_offered, is_active, is_completed, release_item,
  release_trade_offer, assert_trade_available, request_trade, accept_trade, offer_item, offer_items,
  update_trade_offer,
}
use vaelmour_game.Economy.TradeEnd.{
  check_offer, hand_over, execute_trade, confirm_active, confirm_trade, release_both, close_open,
  close_trade, cleanup_trade, cleanup_orphaned_trades,
}

module _ (env : Env) where
  release_item-Shifts :
      (player_id : ℕ) (offer : TradeOfferItem)
      → Shifts coins_and_fees (pos 0) (release_item env player_id offer)
  unfolding release_item
  release_item-Shifts player_id offer =
      Shifts-after coins_and_fees (Shifts-player coins_and_fees player_id) λ p.
        Shifts-option coins_and_fees (find (is_offered offer) p.reserved_items) _ _
          (Shifts-pure coins_and_fees tt) λ e. search (keeping, add_inventory-Shifts env)

  -- Coins that go from one purse of a player to the other.
  unreserve-Shifts :
      (id : ℕ) (n : ℤ)
      → Shifts coins_and_fees
          (pos 0)
          (change_player id (sub_reserved_coins n) >> change_player id (add_coins n))
  unreserve-Shifts id n =
      Shifts-step coins_and_fees n (grind int_laws) (sub_reserved_coins-Shifts id n)
        λ _. add_coins-Shifts id n

  release_trade_offer-Shifts :
      (player_id : ℕ) (t : DirectTrade)
      → Shifts coins_and_fees (pos 0) (release_trade_offer env player_id t)
  unfolding release_trade_offer
  release_trade_offer-Shifts player_id t =
      Shifts-after coins_and_fees (Shifts-for_each coins_and_fees _ (release_item-Shifts player_id))
        λ _. Shifts-after coins_and_fees (Shifts-player coins_and_fees player_id) λ p.
          Shifts-after coins_and_fees
            (Shifts-when coins_and_fees _ (λ _. refl)
              (Shifts-after coins_and_fees (Shifts-throw_if coins_and_fees _ _)
                λ _. unreserve-Shifts player_id (offered_coins t player_id)))
            λ _. Shifts-pure coins_and_fees _

  assert_trade_available-Shifts :
      (a : Availability) (player_id : ℕ) (except : Option ℕ)
      → Shifts coins_and_fees (pos 0) (assert_trade_available env a player_id except)
  unfolding assert_trade_available
  assert_trade_available-Shifts a player_id except = search keeping depth 8

  pub request_trade-Shifts :
      (a : Availability) (requester_id receiver_name : ℕ)
      → Shifts coins_and_fees (pos 0) (request_trade env a requester_id receiver_name)
  unfolding request_trade
  request_trade-Shifts a requester_id receiver_name =
      search (keeping, assert_trade_available-Shifts) depth 16

  pub accept_trade-Shifts :
      (a : Availability) (player_id trade_id : ℕ)
      → Shifts coins_and_fees (pos 0) (accept_trade env a player_id trade_id)
  unfolding accept_trade
  accept_trade-Shifts a player_id trade_id =
      search (keeping, assert_trade_available-Shifts) depth 14

  offer_item-Shifts :
      (player_id : ℕ) (r : ℕ × ℕ) (t : DirectTrade)
      → Shifts coins_and_fees (pos 0) (offer_item env player_id r t)
  unfolding offer_item
  offer_item-Shifts player_id (entry_id, quantity) t = search keeping depth 16

  offer_items-Shifts :
      (player_id : ℕ) (seen : List ℕ) (requested : List (ℕ × ℕ)) (t : DirectTrade)
      → Shifts coins_and_fees (pos 0) (offer_items env player_id seen requested t)
  unfolding offer_items
  offer_items-Shifts player_id seen [] t = Shifts-pure coins_and_fees t
  offer_items-Shifts player_id seen (r ∷ requested) t =
      Shifts-after coins_and_fees (Shifts-throw_if coins_and_fees _ _) λ _.
        Shifts-after coins_and_fees (offer_item-Shifts player_id r t)
          λ t'. offer_items-Shifts player_id (r.0 ∷ seen) requested t'

  pub update_trade_offer-Shifts :
      (player_id trade_id : ℕ) (offer : TradeOfferInput)
      → Shifts coins_and_fees (pos 0) (update_trade_offer env player_id trade_id offer)
  unfolding update_trade_offer
  update_trade_offer-Shifts player_id trade_id offer =
      Shifts-after coins_and_fees (Shifts-trade coins_and_fees trade_id) λ t.
        Shifts-after coins_and_fees (Shifts-throw_if coins_and_fees _ _) λ _.
          Shifts-after coins_and_fees (Shifts-throw_if coins_and_fees _ _) λ _.
            Shifts-after coins_and_fees (Shifts-player coins_and_fees player_id) λ _.
              Shifts-after coins_and_fees (release_trade_offer-Shifts player_id t) λ released.
                Shifts-after coins_and_fees (Shifts-player coins_and_fees player_id) λ p.
                  Shifts-after coins_and_fees (Shifts-throw_if coins_and_fees _ _) λ _.
                    Shifts-after coins_and_fees
                      (offer_items-Shifts player_id [] offer.items released)
                      λ offered.
                        Shifts-step coins_and_fees offer.coins (grind int_laws)
                          (sub_coins-Shifts player_id offer.coins)
                          λ _.
                            Shifts-step coins_and_fees (pos 0) (grind int_laws)
                              (add_reserved_coins-Shifts player_id offer.coins)
                              λ _. search keeping depth 8

  check_offer-Shifts :
      (offer : TradeOfferItem) → Shifts coins_and_fees (pos 0) (check_offer env offer)
  unfolding check_offer
  check_offer-Shifts offer = search keeping depth 8

  hand_over-Shifts :
      (owner_id receiver_id : ℕ) (offer : TradeOfferItem)
      → Shifts coins_and_fees (pos 0) (hand_over env owner_id receiver_id offer)
  unfolding hand_over
  hand_over-Shifts owner_id receiver_id offer = search (keeping, add_inventory-Shifts env) depth 8

  -- The two offers of coins change hands.
  exchange-Shifts :
      {A : Type 0} (a b : ℕ) (m n : ℤ) {k : Action A}
      → Shifts coins_and_fees (pos 0) k
      → Shifts coins_and_fees (pos 0) (
          change_player a (sub_reserved_coins m)
          >> (change_player b (sub_reserved_coins n)
              >> (change_player a (add_coins n) >> (change_player b (add_coins m) >> k))))
  exchange-Shifts a b m n h =
      Shifts-step coins_and_fees m (grind int_laws) (sub_reserved_coins-Shifts a m) λ _.
        Shifts-step coins_and_fees (m +ℤ n) (grind int_laws) (sub_reserved_coins-Shifts b n) λ _.
          Shifts-step coins_and_fees m (grind int_laws) (add_coins-Shifts a n)
            λ _. Shifts-step coins_and_fees (pos 0) (grind int_laws) (add_coins-Shifts b m) λ _. h

  execute_trade-Shifts : (t : DirectTrade) → Shifts coins_and_fees (pos 0) (execute_trade env t)
  unfolding execute_trade
  execute_trade-Shifts t =
      Shifts-after coins_and_fees (Shifts-player coins_and_fees t.requester_id) λ a.
        Shifts-after coins_and_fees (Shifts-player coins_and_fees t.receiver_id) λ b.
          Shifts-after coins_and_fees (Shifts-for_each coins_and_fees _ check_offer-Shifts) λ _.
            Shifts-after coins_and_fees (Shifts-throw_if coins_and_fees _ _) λ _.
              Shifts-after coins_and_fees
                (Shifts-for_each coins_and_fees _ (λ offer.
                  Shifts-if coins_and_fees _ (hand_over-Shifts _ _ offer)
                    (hand_over-Shifts _ _ offer)))
                λ _. exchange-Shifts t.requester_id t.receiver_id _ _ (
                  Shifts-after coins_and_fees (ledger-Shifts env _ _ LedgerReason.direct_trade) λ _.
                    Shifts-after coins_and_fees (ledger-Shifts env _ _ LedgerReason.direct_trade)
                      λ _. Shifts-pure coins_and_fees _)

  confirm_active-Shifts :
      (player_id revision : ℕ) (t : DirectTrade)
      → Shifts coins_and_fees (pos 0) (confirm_active env player_id revision t)
  unfolding confirm_active
  confirm_active-Shifts player_id revision t =
      Shifts-after coins_and_fees (Shifts-throw_if coins_and_fees _ _) λ _.
        Shifts-after coins_and_fees
          (Shifts-bool coins_and_fees _ _ _ (execute_trade-Shifts _) (Shifts-pure coins_and_fees _))
          λ ended. search keeping depth 8

  pub confirm_trade-Shifts :
      (player_id trade_id revision : ℕ)
      → Shifts coins_and_fees (pos 0) (confirm_trade env player_id trade_id revision)
  unfolding confirm_trade
  confirm_trade-Shifts player_id trade_id revision =
      Shifts-after coins_and_fees (Shifts-trade coins_and_fees trade_id) λ t.
        Shifts-after coins_and_fees (Shifts-throw_if coins_and_fees _ _) λ _.
          Shifts-bool coins_and_fees (is_active t) _ _ (confirm_active-Shifts player_id revision t)
            (Shifts-pure coins_and_fees t.id)

  release_both-Shifts : (t : DirectTrade) → Shifts coins_and_fees (pos 0) (release_both env t)
  unfolding release_both
  release_both-Shifts t = search (keeping, release_trade_offer-Shifts) depth 8

  pub close_trade-Shifts :
      (player_id trade_id : ℕ) (status : DirectTradeStatus)
      → Shifts coins_and_fees (pos 0) (close_trade env player_id trade_id status)
  unfolding close_trade close_open
  close_trade-Shifts player_id trade_id status =
      Shifts-after coins_and_fees (Shifts-trade coins_and_fees trade_id) λ t.
        Shifts-after coins_and_fees (Shifts-throw_if coins_and_fees _ _) λ _.
          Shifts-bool coins_and_fees (is_completed t) _ _ (Shifts-pure coins_and_fees t.id)
            (search (keeping, release_both-Shifts) depth 8)

  pub cleanup_orphaned_trades-Shifts : Shifts coins_and_fees (pos 0) (cleanup_orphaned_trades env)
  unfolding cleanup_orphaned_trades cleanup_trade
  cleanup_orphaned_trades-Shifts =
      Shifts-after coins_and_fees (Shifts-gets coins_and_fees _) λ trades.
        Shifts-after coins_and_fees
          (Shifts-for_each coins_and_fees trades λ t.
            Shifts-when coins_and_fees _ (λ _. refl)
              (search (keeping, release_both-Shifts) depth 8))
          λ _. Shifts-pure coins_and_fees _
