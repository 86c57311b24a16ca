-- ===== src/Economy/Market/Book.antt =====
-- The book of orders of server/economy/EconomyService.ts as a map: every order stands under its own
-- identifier, and an open one has units left.
use vaelmour_game.Prelude.{
  ℕ, ◌+◌, ◌≤◌, ◌≡◌, refl, Bool, true, false, none, some, List, [], ◌∷◌, ◌&&◌, ◌==◌, if◌then◌else◌,
  All, All-map, keep, arith, Bool-cases, inl, inr, ==_iff,
}
use vaelmour_game.Prelude.Dict.{Dict, lookup, insert, values, lookup-insert}
use vaelmour_game.Economy.Types.{EconomyState, MarketOrder, MarketSide, is_live}
use vaelmour_game.Economy.Market.{is_side, open_orders, total_remaining}

abbrev pub HasUnits : MarketOrder → Type 0
HasUnits o = is_live o ≡ true → 1 ≤ o.remaining_quantity

abbrev pub IsBook : Dict MarketOrder → Type 0
IsBook [] = Unit
IsBook ((k, o) ∷ d) = (o.id ≡ k) × HasUnits o × (lookup k d ≡ none) × IsBook d

pub IsBook-insert :
    (o : MarketOrder) (d : Dict MarketOrder) → HasUnits o → IsBook d → IsBook (insert o.id o d)
IsBook-insert o [] u h = (refl, u, refl, tt)
IsBook-insert o ((j, x) ∷ d) u h = elim (Bool-cases (o.id == j)) [
  | inl same ↦ rw same ((==_iff o.id j).0 same, u, h.2, h.3)
  | inr other ↦
      let apart : (j == o.id) ≡ false = ground arith in
      let kept : lookup j (insert o.id o d) ≡ none = rw (lookup-insert o.id j o d, apart) h.2 in
      rw other (h.0, h.1, kept, IsBook-insert o d u h.3)
]

-- An order of the book, under its identifier.
abbrev pub Stored : Dict MarketOrder → MarketOrder → Type 0
Stored d o = (lookup o.id d ≡ some o) × HasUnits o

Stored-tail :
    (k : ℕ) (x : MarketOrder) (d : Dict MarketOrder)
    → lookup k d ≡ none
    → (o : MarketOrder) → Stored d o
    → Stored ((k, x) ∷ d) o
Stored-tail k x d fresh o h = elim (Bool-cases (o.id == k)) [
  | inl same ↦
      let e : o.id ≡ k = (==_iff o.id k).0 same in
      let hit : lookup k d ≡ some o = rw (← e) h.0 in cc
  | inr other ↦ (rw other h.0, h.1)
]

values-Stored : (d : Dict MarketOrder) → IsBook d → All (Stored d) (values d)
values-Stored [] h = tt
values-Stored ((k, o) ∷ d) h =
    let here : (o.id == k) ≡ true = (==_iff o.id k).1 h.0 in
    ((rw here refl, h.1), All-map (Stored-tail k o d h.2) (values d) (values-Stored d h.3))

All-keep :
    (P : MarketOrder → Type 0) (p : MarketOrder → Bool) (xs : List MarketOrder)
    → All P xs
    → All (λ o. (p o ≡ true) × P o) (keep p xs)
All-keep P p [] h = tt
All-keep P p (x ∷ xs) h = elim (Bool-cases (p x)) [
  | inl hit ↦ rw hit ((hit, h.0), All-keep P p xs h.1)
  | inr miss ↦ rw miss (All-keep P p xs h.1)
]

-- The test of `open_orders`.
abbrev pub on_side : ℕ → MarketSide → MarketOrder → Bool
on_side item_id side o = o.item_id == item_id && is_side o.side side && is_live o

abbrev pub OpenIn : ℕ → MarketSide → Dict MarketOrder → MarketOrder → Type 0
OpenIn item_id side d o = (on_side item_id side o ≡ true) × Stored d o

pub open_orders-OpenIn :
    (s : EconomyState) (item_id : ℕ) (side : MarketSide)
    → IsBook s.market_orders
    → All (OpenIn item_id side s.market_orders) (open_orders s item_id side)
unfolding open_orders
open_orders-OpenIn s item_id side h =
    All-keep (Stored s.market_orders) (on_side item_id side) (values s.market_orders)
      (values-Stored s.market_orders h)

-- The units that the open buy orders of the item ask for.
abbrev pub asked : ℕ → MarketOrder → ℕ
asked item_id o = if on_side item_id MarketSide.buy o then o.remaining_quantity else 0

abbrev pub demand : ℕ → Dict MarketOrder → ℕ
demand item_id [] = 0
demand item_id ((k, o) ∷ d) = asked item_id o + demand item_id d

values-demand :
    (item_id : ℕ) (d : Dict MarketOrder)
    → total_remaining (keep (on_side item_id MarketSide.buy) (values d)) ≡ demand item_id d
values-demand item_id [] = refl
values-demand item_id ((k, o) ∷ d) = elim (Bool-cases (on_side item_id MarketSide.buy o)) [
  | inl hit ↦ rw hit (omega (arith, values-demand item_id d))
  | inr miss ↦ rw miss (omega (arith, values-demand item_id d))
]

pub open_orders-demand :
    (item_id : ℕ) (s : EconomyState)
    → total_remaining (open_orders s item_id MarketSide.buy) ≡ demand item_id s.market_orders
unfolding open_orders
open_orders-demand item_id s = values-demand item_id s.market_orders

pub demand-insert :
    (item_id k : ℕ) (o old : MarketOrder) (d : Dict MarketOrder)
    → lookup k d ≡ some old
    → demand item_id (insert k o d) + asked item_id old ≡ demand item_id d + asked item_id o
demand-insert item_id k o old [] e = cc
demand-insert item_id k o old ((j, x) ∷ d) e = elim (Bool-cases (k == j)) [
  | inl same ↦
      let hit : some x ≡ some old = rw same at e in
      let eq : x ≡ old = cc in rw (same, eq) (omega arith)
  | inr other ↦ let rest = demand-insert item_id k o old d (rw other at e) in rw other (omega arith)
]
