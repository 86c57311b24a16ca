-- ===== src/Players/Items.antt =====
-- move, learnRecipe, craft, consumeItem, commitLoot, awardProgression and the grants of
-- server/players/PlayerStateService.ts, each as what it does to the working profile. Entries hold
-- at least one unit.
use vaelmour_game.Prelude.{
  ℕ, zero, suc, ◌-◌, min, max, Bool, true, false, ◌||◌, Option, none, some, List, [], ◌∷◌, ◌++◌,
  ltb, ◌==◌, if◌then◌else◌, find, remove_first, change_first, length,
}
use vaelmour_game.Prelude.Int.{ℤ, pos, negsuc, ◌+ℤ◌}
use vaelmour_game.Prelude.Dict.{Dict}
use vaelmour_game.Data.{
  ItemDefinition, RecipeDefinition, InventoryEntry, PersonalLoot, StoredPlayerProfile, includes,
}
use vaelmour_game.Players.Attempt.{
  Attempt, done, ◌>>=◌, ◌>>◌, or_refuse, refuse_if, item_not_owned, recipe_not_owned,
  wrong_profession, already_learned, recipe_not_learned, not_enough_resources, not_enough_items,
}
use vaelmour_game.Players.Bag.{
  Supply, Bag, has_id, count_in, remove_quantity, consume_by_item_id, add_item,
}
use vaelmour_game.Players.Inventory.{Working, not_of_trade}

abbrev pub recipe_of : Option ItemDefinition → Option ℕ
recipe_of none = none
recipe_of (some d) = d.recipe_id

abbrev pub entry_recipe :
    Supply → (ℕ → Option RecipeDefinition) → Option InventoryEntry → Option RecipeDefinition
entry_recipe supply recipes none = none
entry_recipe supply recipes (some e) = elim (recipe_of (supply.catalog e.item_id)) [
  | none ↦ none
  | some id ↦ recipes id
]

-- `entry.quantity -= quantity; if (entry.quantity === 0) source.splice(index, 1)`
unfoldable pub take_out : InventoryEntry → ℕ → List InventoryEntry → List InventoryEntry
take_out entry quantity source =
    if entry.quantity == quantity
    then remove_first (has_id entry.entry_id) source
    else change_first (has_id entry.entry_id) (λ e. record e { quantity = e.quantity - quantity })
        source

-- `Math.max(1, Math.min(entry.quantity, Math.floor(requestedQuantity ?? entry.quantity)))`, the
-- floor being given
unfoldable pub moved_quantity : ℕ → Option ℤ → ℕ
moved_quantity available none = max 1 available
moved_quantity available (some (pos n)) = max 1 (min available n)
moved_quantity available (some (negsuc n)) = 1

-- Between two lists: the source and the target then.
unfoldable pub move_between :
    Supply → ℕ → Option ℤ → List InventoryEntry → Bag → Attempt (List InventoryEntry × Bag)
move_between supply entry_id requested source target = do
  entry ← or_refuse (find (has_id entry_id) source) item_not_owned
  let quantity = moved_quantity entry.quantity requested
  filled ←
      add_item supply entry.item_id quantity
        (if quantity == entry.quantity then some entry.entry_id else none) target
  done (take_out entry quantity source, filled)

unfoldable pub move : Supply → ℕ → Bool → Option ℤ → Working → Attempt Working
move supply entry_id true requested w =
    move_between supply entry_id requested w.profile.inventory
      (record { entries = w.profile.storage; draws = w.draws })
    >>= λ (source, target). done (record {
      profile = record w.profile { inventory = source; storage = target.entries };
      draws = target.draws;
    })
move supply entry_id false requested w =
    move_between supply entry_id requested w.profile.storage
      (record { entries = w.profile.inventory; draws = w.draws })
    >>= λ (source, target). done (record {
      profile = record w.profile { storage = source; inventory = target.entries };
      draws = target.draws;
    })

-- `this.addItem(profile.inventory, itemId, quantity)`
unfoldable pub give : Supply → ℕ → ℕ → Working → Attempt Working
give supply item_id quantity w = do
  bag ←
      add_item supply item_id quantity none
        (record { entries = w.profile.inventory; draws = w.draws })
  done (record { profile = record w.profile { inventory = bag.entries }; draws = bag.draws })

unfoldable pub learn_recipe :
    Supply → (ℕ → Option RecipeDefinition) → ℕ → StoredPlayerProfile → Attempt StoredPlayerProfile
learn_recipe supply recipes entry_id p = do
  recipe ←
      or_refuse (entry_recipe supply recipes (find (has_id entry_id) p.inventory)) recipe_not_owned
  refuse_if (not_of_trade recipe p.class_id) wrong_profession
  refuse_if (includes p.learned_recipes recipe.id) already_learned
  done (record p {
    learned_recipes = p.learned_recipes ++ recipe.id ∷ [];
    inventory = remove_quantity p.inventory entry_id 1;
  })

abbrev pub lacks : List InventoryEntry → Dict ℕ → Bool
lacks es [] = false
lacks es ((item_id, quantity) ∷ rs) = ltb (count_in es item_id) quantity || lacks es rs

unfoldable pub consume_all : Dict ℕ → List InventoryEntry → List InventoryEntry
consume_all [] es = es
consume_all ((item_id, quantity) ∷ rs) es = consume_all rs (consume_by_item_id es item_id quantity)

abbrev pub known_recipe :
    (ℕ → Option RecipeDefinition) → ℕ → StoredPlayerProfile → Option RecipeDefinition
known_recipe recipes recipe_id p =
    if includes p.learned_recipes recipe_id then recipes recipe_id else none

unfoldable pub craft : Supply → (ℕ → Option RecipeDefinition) → ℕ → Working → Attempt Working
craft supply recipes recipe_id w = do
  recipe ← or_refuse (known_recipe recipes recipe_id w.profile) recipe_not_learned
  refuse_if (not_of_trade recipe w.profile.class_id) wrong_profession
  refuse_if (lacks w.profile.inventory recipe.requirements) not_enough_resources
  give supply recipe.output_item_id recipe.output_quantity (record w {
    profile = record w.profile { inventory = consume_all recipe.requirements w.profile.inventory };
  })

unfoldable pub consume_item : ℕ → ℕ → StoredPlayerProfile → Attempt StoredPlayerProfile
consume_item item_id quantity p = do
  refuse_if (ltb (count_in p.inventory item_id) quantity) not_enough_items
  done (record p { inventory = consume_by_item_id p.inventory item_id quantity })

unfoldable pub award_progression : ℕ → ℕ → ℤ → StoredPlayerProfile → StoredPlayerProfile
award_progression level current_xp coins p = record p {
  level = level;
  current_xp = current_xp;
  coins = p.coins +ℤ coins;
}

-- `Math.floor(n * retainedFraction)` is a function of `n`. What is kept goes to the inventory and
-- into `committed`.
module _ (supply : Supply) (retained : ℕ → ℕ) where
  unfoldable pub commit_resources :
      Dict ℕ → Working × PersonalLoot → Attempt (Working × PersonalLoot)
  commit_resources [] r = done r
  commit_resources ((item_id, quantity) ∷ rs) (w, loot) =
      let kept = retained quantity in
      elim (ltb 0 kept) [
        | true ↦ give supply item_id kept w >>= λ given.
            commit_resources rs
              (given, record loot { resources = loot.resources ++ (item_id, kept) ∷ [] })
        | false ↦ commit_resources rs (w, loot)
      ]

  -- The recipe items among the first `count`; `recipe_item` stands for the text `recipe_item:<id>`.
  unfoldable pub commit_recipes :
      (ℕ → ℕ) → ℕ → List ℕ → Working × PersonalLoot → Attempt (Working × PersonalLoot)
  commit_recipes recipe_item count [] r = done r
  commit_recipes recipe_item zero (id ∷ ids) r = done r
  commit_recipes recipe_item (suc count) (id ∷ ids) (w, loot) =
      give supply (recipe_item id) 1 w >>= λ given.
      commit_recipes recipe_item count ids
        (given, record loot { recipe_ids = loot.recipe_ids ++ id ∷ [] })

-- `loot.recipeIds.slice(0, Math.floor(loot.recipeIds.length * retainedFraction))` gives the recipes.
unfoldable pub commit_loot :
    Supply → (ℕ → ℕ) → (ℕ → ℕ) → PersonalLoot → Working → Attempt (Working × PersonalLoot)
commit_loot supply retained recipe_item loot w = do
  kept ←
      commit_resources supply retained loot.resources
        (w, record { resources = []; recipe_ids = [] })
  commit_recipes supply retained recipe_item (retained (length loot.recipe_ids)) loot.recipe_ids
      kept
