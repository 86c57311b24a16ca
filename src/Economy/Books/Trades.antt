-- ===== src/Economy/Books/Trades.antt =====
-- The direct trades leave the book of orders alone.
use vaelmour_game.Prelude.{ℕ, Option, List, [], ◌∷◌, find}
use vaelmour_game.Economy.Types.{Env, DirectTrade, TradeOfferItem, DirectTradeStatus}
use vaelmour_game.Economy.Books.{
  KeepsBook, KeepsBook-after, KeepsBook-option, KeepsBook-bool, KeepsBook-pure, KeepsBook-throw_if,
  KeepsBook-trade, KeepsBook-player, KeepsBook-ledger, KeepsBook-add_inventory, book_rules,
}
use vaelmour_game.Economy.Trades.{
  Availability, TradeOfferInput, is_offered, is_active, is_completed, release_item,
  release_trade_offer, assert_trade_available, request_trade, accept_trade, offer_item, offer_items,
  update_trade_offer,
}
use vaelmour_game.Economy.TradeEnd.{
  check_offer, hand_over, execute_trade, confirm_active, confirm_trade, release_both, close_open,
  close_trade, cleanup_trade, cleanup_orphaned_trades,
}

module _ (env : Env) where
  release_item-KeepsBook :
      (player_id : ℕ) (offer : TradeOfferItem) → KeepsBook (release_item env player_id offer)
  unfolding release_item
  release_item-KeepsBook player_id offer = KeepsBook-after (KeepsBook-player player_id) λ p.
      KeepsBook-option (find (is_offered offer) p.reserved_items) _ _ (KeepsBook-pure tt)
        λ e. search (book_rules, KeepsBook-add_inventory env)

  release_trade_offer-KeepsBook :
      (player_id : ℕ) (t : DirectTrade) → KeepsBook (release_trade_offer env player_id t)
  unfolding release_trade_offer
  release_trade_offer-KeepsBook player_id t = search (book_rules, release_item-KeepsBook) depth 20

  assert_trade_available-KeepsBook :
      (a : Availability) (player_id : ℕ) (except : Option ℕ)
      → KeepsBook (assert_trade_available env a player_id except)
  unfolding assert_trade_available
  assert_trade_available-KeepsBook a player_id except = search book_rules depth 10

  pub request_trade-KeepsBook :
      (a : Availability) (requester_id receiver_name : ℕ)
      → KeepsBook (request_trade env a requester_id receiver_name)
  unfolding request_trade
  request_trade-KeepsBook a requester_id receiver_name =
      search (book_rules, assert_trade_available-KeepsBook) depth 20

  pub accept_trade-KeepsBook :
      (a : Availability) (player_id trade_id : ℕ)
      → KeepsBook (accept_trade env a player_id trade_id)
  unfolding accept_trade
  accept_trade-KeepsBook a player_id trade_id =
      search (book_rules, assert_trade_available-KeepsBook) depth 20

  offer_item-KeepsBook :
      (player_id : ℕ) (r : ℕ × ℕ) (t : DirectTrade) → KeepsBook (offer_item env player_id r t)
  unfolding offer_item
  offer_item-KeepsBook player_id (entry_id, quantity) t = search book_rules depth 20

  offer_items-KeepsBook :
      (player_id : ℕ) (seen : List ℕ) (requested : List (ℕ × ℕ)) (t : DirectTrade)
      → KeepsBook (offer_items env player_id seen requested t)
  unfolding offer_items
  offer_items-KeepsBook player_id seen [] t = KeepsBook-pure t
  offer_items-KeepsBook player_id seen (r ∷ requested) t =
      KeepsBook-after (KeepsBook-throw_if _ _) λ _.
        KeepsBook-after (offer_item-KeepsBook player_id r t)
          λ t'. offer_items-KeepsBook player_id (r.0 ∷ seen) requested t'

  pub update_trade_offer-KeepsBook :
      (player_id trade_id : ℕ) (offer : TradeOfferInput)
      → KeepsBook (update_trade_offer env player_id trade_id offer)
  unfolding update_trade_offer
  update_trade_offer-KeepsBook player_id trade_id offer =
      search (book_rules, release_trade_offer-KeepsBook, offer_items-KeepsBook) depth 30

  execute_trade-KeepsBook : (t : DirectTrade) → KeepsBook (execute_trade env t)
  unfolding execute_trade check_offer hand_over
  execute_trade-KeepsBook t =
      search (book_rules, KeepsBook-ledger env, KeepsBook-add_inventory env) depth 30

  confirm_active-KeepsBook :
      (player_id revision : ℕ) (t : DirectTrade)
      → KeepsBook (confirm_active env player_id revision t)
  unfolding confirm_active
  confirm_active-KeepsBook player_id revision t = KeepsBook-after (KeepsBook-throw_if _ _) λ _.
      KeepsBook-after (KeepsBook-bool _ _ _ (execute_trade-KeepsBook _) (KeepsBook-pure _))
        λ ended. search book_rules depth 10

  pub confirm_trade-KeepsBook :
      (player_id trade_id revision : ℕ) → KeepsBook (confirm_trade env player_id trade_id revision)
  unfolding confirm_trade
  confirm_trade-KeepsBook player_id trade_id revision =
      KeepsBook-after (KeepsBook-trade trade_id) λ t. KeepsBook-after (KeepsBook-throw_if _ _) λ _.
        KeepsBook-bool (is_active t) _ _ (confirm_active-KeepsBook player_id revision t)
          (KeepsBook-pure t.id)

  release_both-KeepsBook : (t : DirectTrade) → KeepsBook (release_both env t)
  unfolding release_both
  release_both-KeepsBook t = search (book_rules, release_trade_offer-KeepsBook) depth 10

  pub close_trade-KeepsBook :
      (player_id trade_id : ℕ) (status : DirectTradeStatus)
      → KeepsBook (close_trade env player_id trade_id status)
  unfolding close_trade close_open
  close_trade-KeepsBook player_id trade_id status = KeepsBook-after (KeepsBook-trade trade_id) λ t.
      KeepsBook-after (KeepsBook-throw_if _ _) λ _.
        KeepsBook-bool (is_completed t) _ _ (KeepsBook-pure t.id)
          (search (book_rules, release_both-KeepsBook) depth 10)

  pub cleanup_orphaned_trades-KeepsBook : KeepsBook (cleanup_orphaned_trades env)
  unfolding cleanup_orphaned_trades cleanup_trade
  cleanup_orphaned_trades-KeepsBook = search (book_rules, release_both-KeepsBook) depth 20
