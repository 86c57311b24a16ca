-- ===== src/Economy/Tests.antt =====
-- A small market run on concrete players, and the theorems of the economy at it.
use vaelmour_game.Prelude.{
  ℕ, ◌+◌, ◌≡◌, refl, true, Option, none, some, List, [], ◌∷◌, ltb, ◌==◌, if◌then◌else◌, insert_by,
  arith, sort_by,
}
use vaelmour_game.Prelude.Int.{ℤ, pos, ◌+ℤ◌, ◌-ℤ◌}
use vaelmour_game.Prelude.Dict.{lookup}
use vaelmour_game.Data.{
  CharacterClass, ItemDefinition, InventoryEntry, EquipmentState, StoredPlayerProfile,
  EscrowLocation,
}
use vaelmour_game.Economy.Types.{EconomyState, Env, MarketOrder, MarketSide, MarketOrderStatus}
use vaelmour_game.Economy.Monad.{
  World, ◌>>=◌, pure, throw, or_throw, throw_if, gets, modify, when, for_each, random_uuid, now,
}
use vaelmour_game.Economy.Store.{
  player, put_player, change_player, put_order, put_trade, put_reservation, push_fill, push_ledger,
  ledger, or_random, add_inventory,
}
use vaelmour_game.Economy.Market.{
  buy_order_fee, transaction_fee, open_orders, update_order_status, fill_price, find_pair,
  best_pair, settle_fill, match_orders, match_rounds, match,
}
use vaelmour_game.Economy.Market.Settled.{Settles, match-Settles}
use vaelmour_game.Economy.Orders.{create_sell_order, create_buy_order}
use vaelmour_game.Economy.Repository.{Database, economy_transact}
use vaelmour_game.Economy.Service.{Request, sell_order, buy_order, handle, serve}
use vaelmour_game.Economy.Totals.{wealth}
use vaelmour_game.Economy.Conservation.History.{serve-wealth}
use vaelmour_game.Economy.Books.History.{HasBook, serve-HasBook}

abbrev ore : ItemDefinition
ore = record {
  stackable = true;
  equip_type = none;
  allowed_class = none;
  attack = none;
  hp = none;
  recipe_id = none;
}

-- Item 7 is a stackable ore; identifiers count up from 1000, and the time from 0.
abbrev env : Env
env = record {
  catalog = λ i. if i == 7 then some ore else none;
  random_uuid = λ n. n + 1000;
  now = λ n. n;
  locale_before = ltb;
  text_before = ltb;
  normalize_player_name = λ n. n;
}

abbrev bare : EquipmentState
bare = record {
  weapon = none;
  head = none;
  chest = none;
  hands = none;
  legs = none;
  feet = none;
  ring1 = none;
  ring2 = none;
  amulet = none;
}

abbrev person : ℕ → ℤ → List InventoryEntry → StoredPlayerProfile
person id coins items = record {
  account_id = id;
  player_id = id;
  name = id;
  name_key = id;
  class_id = CharacterClass.warrior;
  level = 1;
  current_xp = 0;
  coins = coins;
  reserved_coins = pos 0;
  inventory = items;
  storage = [];
  equipment = bare;
  learned_recipes = [];
  reserved_items = [];
  rift_progress = [];
}

abbrev start : EconomyState
start = record {
  players =
      (1, person 1 (pos 0) (record { entry_id = 50; item_id = 7; quantity = 10 } ∷ []))
      ∷ (2, person 2 (pos 1000) [])
      ∷ [];
  market_orders = [];
  market_fills = [];
  trades = [];
  party_slot_reservations = [];
  ledger = [];
}

abbrev db : Database
db = record {
  state = start;
  operations = [];
  operation_references = [];
  active_expeditions = [];
  draws = 0;
  ticks = 0;
}

-- Player 1 offers 4 ore at 100 each; player 2 bids for 3 at 120, repeats the request, and buys.
abbrev trading : List (ℕ × Request)
trading = (90, sell_order 1 50 4 100) ∷ (91, buy_order 2 7 3 120) ∷ (91, buy_order 2 7 3 120) ∷ []

-- The definitions that a run goes through.
run_all : Unit {0}
unfolding ◌>>=◌ pure throw or_throw throw_if gets modify when for_each random_uuid now player
    put_player change_player put_order put_trade put_reservation push_fill push_ledger ledger
    or_random add_inventory buy_order_fee transaction_fee open_orders update_order_status fill_price
    find_pair best_pair settle_fill match_orders match_rounds match create_sell_order
    create_buy_order economy_transact handle serve insert_by sort_by ◌+ℤ◌ ◌-ℤ◌
run_all = tt

abbrev purse : ℕ → Database → Option (ℤ × ℤ)
purse id d = elim (lookup id d.state.players) [
  | none ↦ none
  | some p ↦ some (p.coins, p.reserved_coins)
]

-- The seller gets 300 less a fee of 6; the buyer pays 300 and a fee of 4, and the rest comes back.
trading_purses :
    (purse 1 (serve env trading db) ≡ some (pos 294, pos 0))
    × (purse 2 (serve env trading db) ≡ some (pos 696, pos 0))
unfolding run_all
trading_purses = (refl, refl)

serve-wealth_example : wealth (serve env trading db).state ≡ wealth db.state
serve-wealth_example = serve-wealth env trading db

serve-HasBook_example : HasBook (serve env trading db)
serve-HasBook_example = serve-HasBook env trading db tt

-- The book of player 1's offer and player 2's bid, before they are matched.
abbrev offer : MarketOrder
offer = record {
  id = 1;
  player_id = 1;
  item_id = 7;
  escrow_item_id = some 60;
  side = MarketSide.sell;
  price_per_unit = 100;
  original_quantity = 4;
  remaining_quantity = 4;
  reserved_coins = pos 0;
  status = MarketOrderStatus.open_order;
  created_at = 0;
  updated_at = 0;
}

abbrev bid : MarketOrder
bid = record offer {
  id = 2;
  player_id = 2;
  escrow_item_id = none;
  side = MarketSide.buy;
  price_per_unit = 120;
  original_quantity = 3;
  remaining_quantity = 3;
  reserved_coins = pos 360;
}

abbrev crossed : World
crossed = record {
  state = record start {
    players =
        (
          1,
          record (person 1 (pos 0) []) {
            reserved_items =
                record {
                  entry_id = 60;
                  item_id = 7;
                  quantity = 4;
                  location = EscrowLocation.market_escrow;
                }
                ∷ [];
          },
        )
        ∷ (2, record (person 2 (pos 0) []) { reserved_coins = pos 360 })
        ∷ [];
    market_orders = (1, offer) ∷ (2, bid) ∷ [];
  };
  draws = 0;
  ticks = 0;
}

match-Settles_example : Settles 7 (match env 7 crossed)
unfolding run_all
match-Settles_example =
    match-Settles env 7 crossed
      (refl, (λ h. omega arith), refl, (refl, (λ h. omega arith), refl, tt))
