-- ===== src/Economy/Market/Uncrossed.antt =====
-- What holds of the book when `match` of server/economy/EconomyService.ts finds no pair.
use vaelmour_game.Prelude.{
  ℕ, ◌≡◌, false, none, List, [], ◌∷◌, All, All-map, All-sort_by, find-none, find, sort_by,
  Option-cases, inl, inr,
}
use vaelmour_game.Economy.Types.{EconomyState, Env, MarketOrder, MarketSide}
use vaelmour_game.Economy.Market.{
  open_orders, buy_before, sell_before, crosses, find_pair, best_pair,
}

-- No order of the list crosses the buy order.
abbrev pub NoneCrosses : List MarketOrder → MarketOrder → Type 0
NoneCrosses sells b = All (λ s. crosses b s ≡ false) sells

-- No open sell order of the item is at or below the price of an open buy order of another player.
abbrev pub IsUncrossed : ℕ → EconomyState → Type 0
IsUncrossed item_id s =
    All (NoneCrosses (open_orders s item_id MarketSide.sell)) (open_orders s item_id MarketSide.buy)

find_pair-none :
    (buys sells : List MarketOrder) → find_pair buys sells ≡ none → All (NoneCrosses sells) buys
unfolding find_pair
find_pair-none [] sells h = tt
find_pair-none (b ∷ buys) sells h = elim (Option-cases (find (crosses b) sells)) [
  | inl miss ↦
      (find-none (crosses b) sells miss, find_pair-none buys sells (rw (miss, find_pair) at h))
  | inr (s, hit) ↦ cc (rw (hit, find_pair) at h)
]

module _ (env : Env) where
  pub best_pair-none :
      (item_id : ℕ) (s : EconomyState) → best_pair env item_id s ≡ none → IsUncrossed item_id s
  unfolding best_pair
  best_pair-none item_id s h =
      let buys = open_orders s item_id MarketSide.buy in
      let sells = open_orders s item_id MarketSide.sell in
      All-map (λ b. All-sort_by (λ c. crosses b c ≡ false) (sell_before env) sells) buys
        (All-sort_by (NoneCrosses (sort_by (sell_before env) sells)) (buy_before env) buys
          (find_pair-none _ _ h))
