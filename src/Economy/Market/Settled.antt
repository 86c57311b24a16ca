-- ===== src/Economy/Market/Settled.antt =====
-- `match` of server/economy/EconomyService.ts ends: each fill takes units from an open buy order.
use vaelmour_game.Prelude.{
  ℕ, zero, suc, ◌+◌, ◌-◌, ◌≤◌, ◌<◌, ◌≡◌, refl, ap, subst, min, true, false, Option, none, some,
  List, [], ◌∷◌, ◌==◌, All, arith, find, Bool-cases, Option-cases, inl, inr, ==_iff, sort_by-All,
  find-some,
}
use vaelmour_game.Prelude.Dict.{Dict, lookup, insert, lookup-insert}
use vaelmour_game.Economy.Types.{EconomyState, Env, MarketOrder, MarketSide, is_live}
use vaelmour_game.Economy.Monad.{
  World, Action, Result, ok, err, Void, ◌>>=◌, ◌>>◌, pure, throw, gets, fuel,
}
use vaelmour_game.Economy.Market.{
  is_side, buy_before, sell_before, crosses, find_pair, best_pair, settle_fill, fill_price,
  match_orders, match_rounds, match, after_fill, update_order_status,
}
use vaelmour_game.Economy.Market.Book.{
  IsBook, HasUnits, IsBook-insert, OpenIn, on_side, open_orders-OpenIn, asked, demand,
  open_orders-demand, demand-insert,
}
use vaelmour_game.Economy.Market.Uncrossed.{IsUncrossed, best_pair-none}
use vaelmour_game.Economy.Market.Fills.{Wrote, Filled, settle_fill-Filled}

find_pair-All :
    (P Q : MarketOrder → Type 0) (buys sells : List MarketOrder) (b s : MarketOrder)
    → All P buys
    → All Q sells
    → find_pair buys sells ≡ some (b, s)
    → P b × Q s
unfolding find_pair
find_pair-All P Q [] sells b s hb hs e = cc
find_pair-All P Q (x ∷ buys) sells b s hb hs e = elim (Option-cases (find (crosses x) sells)) [
  | inl miss ↦ find_pair-All P Q buys sells b s hb.1 hs (rw (miss, find_pair) at e)
  | inr (y, hit) ↦
      let same : ◌≡◌ {A = Option (MarketOrder × MarketOrder)} (some (x, y)) (some (b, s)) =
        rw (hit, find_pair) at e in
      let left : x ≡ b = cc in
      let right : y ≡ s = cc in
      (subst P left hb.0, subst Q right (find-some Q (crosses x) sells y hs hit))
]

after_fill-HasUnits : (quantity t : ℕ) (o : MarketOrder) → HasUnits (after_fill quantity t o)
unfolding update_order_status
after_fill-HasUnits quantity t o h = elim (Bool-cases (o.remaining_quantity - quantity == 0)) [
  | inl done ↦ cc (rw done at h)
  | inr left ↦ ground arith
]

side_of :
    (item_id : ℕ) (side : MarketSide) (o : MarketOrder)
    → on_side item_id side o ≡ true
    → is_side o.side side ≡ true
side_of item_id side o h = ground arith

buy_or_sell : (m : MarketSide) → is_side m MarketSide.sell ≡ true → is_side m MarketSide.buy ≡ false
buy_or_sell MarketSide.buy h = cc
buy_or_sell MarketSide.sell h = refl

asked_sell :
    (item_id : ℕ) (o : MarketOrder) → is_side o.side MarketSide.sell ≡ true → asked item_id o ≡ 0
asked_sell item_id o h =
    let e : is_side o.side MarketSide.buy ≡ false = buy_or_sell o.side h in ground arith

asked_buy :
    (item_id : ℕ) (o : MarketOrder)
    → on_side item_id MarketSide.buy o ≡ true
    → asked item_id o ≡ o.remaining_quantity
asked_buy item_id o h = rw h refl

asked_le : (item_id : ℕ) (o : MarketOrder) → asked item_id o ≤ o.remaining_quantity
asked_le item_id o = elim (Bool-cases (on_side item_id MarketSide.buy o)) [
  | inl hit ↦ rw hit (omega arith)
  | inr miss ↦ rw miss (omega arith)
]

-- The sell order stands under its key when the buy order has been written.
still_stored :
    (item_id : ℕ) (d : Dict MarketOrder) (b s b' : MarketOrder)
    → OpenIn item_id MarketSide.buy d b
    → OpenIn item_id MarketSide.sell d s
    → lookup s.id (insert b.id b' d) ≡ some s
still_stored item_id d b s b' hb hs = elim (Bool-cases (s.id == b.id)) [
  | inl same ↦
      let ids : s.id ≡ b.id = (==_iff s.id b.id).0 same in
      let keys : lookup s.id d ≡ lookup b.id d = ap (λ k. lookup k d) ids in
      let found : lookup b.id d ≡ some b = hb.1.0 in
      let found' : lookup s.id d ≡ some s = hs.1.0 in
      let both : some s ≡ some b = cc in
      let eq : s ≡ b = cc in
      let sell = side_of item_id MarketSide.sell s hs.0 in
      let buy : is_side s.side MarketSide.buy ≡ true =
        rw eq (side_of item_id MarketSide.buy b hb.0) in
      let no_buy = buy_or_sell s.side sell in cc
  | inr other ↦ rw (lookup-insert b.id s.id b' d, other) hs.1.0
]

-- A fill keeps the book in order, and takes its units from the demand.
Filled-less :
    (item_id quantity : ℕ) (b s : MarketOrder) (d d' : Dict MarketOrder)
    → IsBook d
    → OpenIn item_id MarketSide.buy d b
    → OpenIn item_id MarketSide.sell d s
    → Filled b s quantity d d'
    → IsBook d'
      × (demand item_id d' + b.remaining_quantity
          ≤ demand item_id d + (b.remaining_quantity - quantity))
unfolding update_order_status
Filled-less item_id quantity b s d d' h hb hs (left, t, u, e) =
    let b' = after_fill quantity t (record b { reserved_coins = left }) in
    let s' = after_fill quantity u s in
    let d1 = insert b.id b' d in
    let bought = demand-insert item_id b.id b' b d hb.1.0 in
    let sold = demand-insert item_id s.id s' s d1 (still_stored item_id d b s b' hb hs) in
    let sell = side_of item_id MarketSide.sell s hs.0 in
    let gone = asked_sell item_id s sell in
    let gone' = asked_sell item_id s' sell in
    let old = asked_buy item_id b hb.0 in
    let new = asked_le item_id b' in
    rw e (
      IsBook-insert s' d1 (after_fill-HasUnits quantity u s) (
          IsBook-insert b' d (after_fill-HasUnits quantity t (record b { reserved_coins = left }))
            h),
      omega (arith, bought, sold, gone, gone', old, new),
    )

best_pair-OpenIn :
    (env : Env) (item_id : ℕ) (s : EconomyState) (b sl : MarketOrder)
    → IsBook s.market_orders
    → best_pair env item_id s ≡ some (b, sl)
    → OpenIn item_id MarketSide.buy s.market_orders b
      × OpenIn item_id MarketSide.sell s.market_orders sl
unfolding best_pair
best_pair-OpenIn env item_id s b sl h e =
    let buyers = OpenIn item_id MarketSide.buy s.market_orders in
    let sellers = OpenIn item_id MarketSide.sell s.market_orders in
    find_pair-All buyers sellers _ _ b sl
      (sort_by-All buyers (buy_before env) _ (open_orders-OpenIn s item_id MarketSide.buy h))
      (sort_by-All sellers (sell_before env) _ (open_orders-OpenIn s item_id MarketSide.sell h)) e

OpenIn-units :
    (item_id : ℕ) (side : MarketSide) (d : Dict MarketOrder) (o : MarketOrder)
    → OpenIn item_id side d o
    → 1 ≤ o.remaining_quantity
OpenIn-units item_id side d o h =
    let live : is_live o ≡ true = (let test = h.0 in ground arith) in h.1.1 live

-- How a matching may end: in order and uncrossed, or with an error of a fill.
abbrev pub Settles : ℕ → Result (Void × World) → Type 0
Settles item_id (ok (_, w)) = IsBook w.state.market_orders × IsUncrossed item_id w.state
Settles item_id (err e) = ¬ (e ≡ fuel)

module _ (env : Env) where
  -- The next rounds, once the fill has run.
  after_fill-Settles :
      (rounds item_id quantity : ℕ) (b s : MarketOrder) (w : World) (r : Result (Void × World))
      → ((v : World)
          → IsBook v.state.market_orders
          → demand item_id v.state.market_orders < rounds
          → Settles item_id (match_orders env rounds item_id v))
      → IsBook w.state.market_orders
      → demand item_id w.state.market_orders < suc rounds
      → OpenIn item_id MarketSide.buy w.state.market_orders b
      → OpenIn item_id MarketSide.sell w.state.market_orders s
      → 1 ≤ quantity
      → quantity ≤ b.remaining_quantity
      → Wrote (Filled b s quantity) w r
      → Settles item_id (elim r [ ok (a, v) ↦ match_orders env rounds item_id v | err e ↦ err e ])
  after_fill-Settles rounds item_id quantity b s w (err e) ih h few hb hs q q' f = f
  after_fill-Settles rounds item_id quantity b s w (ok (a, v)) ih h few hb hs q q' f =
      let less = Filled-less item_id quantity b s _ _ h hb hs f in
      ih v less.0 (omega (arith, less.1, few, q, q'))

  after_pair-Settles :
      (rounds item_id : ℕ) (w : World) (pair : Option (MarketOrder × MarketOrder))
      → ((v : World)
          → IsBook v.state.market_orders
          → demand item_id v.state.market_orders < rounds
          → Settles item_id (match_orders env rounds item_id v))
      → IsBook w.state.market_orders
      → demand item_id w.state.market_orders < suc rounds
      → best_pair env item_id w.state ≡ pair
      → Settles item_id (
          (elim pair as (λ _. Action Void) [
            | none ↦ pure tt
            | some (b, s) ↦
                settle_fill env b s
                  (min b.remaining_quantity s.remaining_quantity)
                  (fill_price env b s)
                >> match_orders env rounds item_id
          ])
            w)
  unfolding pure ◌>>=◌
  after_pair-Settles rounds item_id w none ih h few e = (h, best_pair-none env item_id w.state e)
  after_pair-Settles rounds item_id w (some (b, s)) ih h few e =
      let opens = best_pair-OpenIn env item_id w.state b s h e in
      let units = OpenIn-units item_id MarketSide.buy _ b opens.0 in
      let units' = OpenIn-units item_id MarketSide.sell _ s opens.1 in
      after_fill-Settles rounds item_id _ b s w _ ih h few opens.0 opens.1
        (omega (arith, units, units')) (omega arith)
        ((settle_fill-Filled env b s _ (fill_price env b s)).run w)

  match_orders-Settles :
      (rounds item_id : ℕ) (w : World)
      → IsBook w.state.market_orders
      → demand item_id w.state.market_orders < rounds
      → Settles item_id (match_orders env rounds item_id w)
  unfolding match_orders throw gets ◌>>=◌
  match_orders-Settles zero item_id w h few = absurd (omega (arith, few))
  match_orders-Settles (suc rounds) item_id w h few =
      after_pair-Settles rounds item_id w (best_pair env item_id w.state)
        (match_orders-Settles rounds item_id) h few refl

  -- Where every order stands under its identifier and every open one has units left, the matching
  -- of an item ends: either it succeeds, the book is still such, and no open sell order of the item
  -- is at or below the price of an open buy order of another player, or one of its fills has
  -- refused. It never runs out of rounds.
  pub match-Settles :
      (item_id : ℕ) (w : World)
      → IsBook w.state.market_orders
      → Settles item_id (match env item_id w)
  unfolding match gets match_rounds ◌>>=◌
  match-Settles item_id w h =
      match_orders-Settles _ item_id w h
        (let d = open_orders-demand item_id w.state in omega (arith, d))
