-- ===== src/Players/Tests.antt =====
-- Runs of the player state service at concrete profiles.
use vaelmour_game.Prelude.{
  ℕ, ◌+◌, ◌≡◌, refl, true, false, Option, none, some, List, [], ◌∷◌, ◌==◌, if◌then◌else◌, arith,
}
use vaelmour_game.Prelude.Int.{pos}
use vaelmour_game.Data.{
  CharacterClass, Profession, ItemEquipType, EquipmentSlot, ItemDefinition, RecipeDefinition,
  InventoryEntry, StoredPlayerProfile,
}
use vaelmour_game.Players.Attempt.{Attempt, done, refused, ◌>>=◌}
use vaelmour_game.Players.Bag.{
  Supply, count_in, remove_quantity, consume_from, consume_by_item_id, add_item,
}
use vaelmour_game.Players.Inventory.{Working, worn_in, wear, resolve_slot, equip, unequip}
use vaelmour_game.Players.Counts.{of_item}
use vaelmour_game.Players.Held.{held, KeepsHeld}
use vaelmour_game.Players.Crafted.{required}
use vaelmour_game.Players.Rifts.{
  RiftDefinition, default_rift_progress, prerequisite_met, current_progress, open_rifts,
  complete_rift_floor,
}
use vaelmour_game.Players.Unlocks.{Grows, Completes}
use vaelmour_game.Players.Outcomes.{
  Succeeds, equip-Succeeds, unequip-Succeeds, move-Succeeds, craft-Succeeds, consume_item-Succeeds,
  complete_rift_floor-Succeeds,
}
use vaelmour_game.Players.Items.{
  take_out, moved_quantity, move_between, move, give, consume_all, craft, consume_item,
}

abbrev plain : ItemDefinition
plain = record {
  stackable = true;
  equip_type = none;
  allowed_class = none;
  attack = none;
  hp = none;
  recipe_id = none;
}

-- Item 1 is a sword, item 2 an iron, item 3 an ingot.
abbrev supply : Supply
supply = record {
  catalog = λ i.
      if i == 1
      then some (record plain { stackable = false; equip_type = some ItemEquipType.weapon })
      else if i == 2
      then some plain
      else if i == 3
      then some plain
      else none;
  random_uuid = λ n. n + 1000;
}

abbrev ingot_recipe : RecipeDefinition
ingot_recipe = record {
  id = 5;
  profession = Profession.blacksmith;
  output_item_id = 3;
  output_quantity = 1;
  requirements = (2, 3) ∷ [];
}

abbrev recipes : ℕ → Option RecipeDefinition
recipes i = if i == 5 then some ingot_recipe else none

abbrev entry : ℕ → ℕ → ℕ → InventoryEntry
entry id item quantity = record { entry_id = id; item_id = item; quantity = quantity }

abbrev smith : StoredPlayerProfile
smith = record {
  account_id = 1;
  player_id = 1;
  name = 1;
  name_key = 1;
  class_id = CharacterClass.blacksmith;
  level = 1;
  current_xp = 0;
  coins = pos 0;
  reserved_coins = pos 0;
  inventory = entry 10 2 4 ∷ entry 11 1 2 ∷ [];
  storage = entry 12 3 1 ∷ [];
  equipment = record {
    weapon = some (entry 13 1 1);
    head = none;
    chest = none;
    hands = none;
    legs = none;
    feet = none;
    ring1 = none;
    ring2 = none;
    amulet = none;
  };
  learned_recipes = 5 ∷ [];
  reserved_items = [];
  rift_progress = [];
}

abbrev at_work : Working
at_work = record { profile = smith; draws = 0 }

run_all : Unit {0}
unfolding ◌>>=◌ count_in remove_quantity consume_from consume_by_item_id add_item worn_in wear
    resolve_slot equip unequip take_out moved_quantity move_between move give consume_all craft
    consume_item default_rift_progress prerequisite_met current_progress open_rifts
    complete_rift_floor
run_all = tt

abbrev inventory_of : Attempt Working → List InventoryEntry
inventory_of (done w) = w.profile.inventory
inventory_of (refused _) = []

abbrev worn_after : Attempt StoredPlayerProfile → List InventoryEntry
worn_after (done p) = p.inventory
worn_after (refused _) = []

-- Three irons make an ingot.
craft-run :
    inventory_of (craft supply recipes 5 at_work)
    ≡ entry 10 2 1 ∷ entry 11 1 2 ∷ entry 1000 3 1 ∷ []
unfolding run_all
craft-run = refl

-- Of a stack of two swords one is worn, and the old sword comes back.
equip-run : worn_after (equip supply 11 none smith) ≡ entry 10 2 4 ∷ entry 13 1 1 ∷ []
unfolding run_all
equip-run = refl

equip-Succeeds_example :
    Succeeds (λ p'. (j : ℕ) → held p' j + of_item 1 1 j ≡ held smith j) (equip supply 11 none smith)
unfolding run_all
equip-Succeeds_example =
    equip-Succeeds supply 11 none smith (entry 11 1 2) ItemEquipType.weapon EquipmentSlot.weapon
      refl (omega arith) refl refl refl

unequip-Succeeds_example : Succeeds (KeepsHeld smith) (unequip EquipmentSlot.weapon smith)
unfolding run_all
unequip-Succeeds_example = unequip-Succeeds EquipmentSlot.weapon smith (entry 13 1 1) refl

move-Succeeds_example :
    Succeeds (λ w'. KeepsHeld smith w'.profile) (move supply 10 true (some (pos 3)) at_work)
unfolding run_all
move-Succeeds_example =
    move-Succeeds supply 10 true (some (pos 3)) at_work (entry 10 2 4) plain
      (omega arith, (omega arith, tt)) (omega arith, tt) refl refl

craft-Succeeds_example :
    Succeeds
      (λ w'.
        (j : ℕ)
        → count_in w'.profile.inventory j + required ((2, 3) ∷ []) j
          ≡ count_in smith.inventory j + of_item 3 1 j)
      (craft supply recipes 5 at_work)
unfolding run_all
craft-Succeeds_example =
    craft-Succeeds supply recipes 5 at_work ingot_recipe plain (refl, (refl, tt)) refl (refl, tt)
      refl refl refl

consume_item-Succeeds_example :
    Succeeds
      (λ p'. (j : ℕ) → count_in p'.inventory j + of_item 2 3 j ≡ count_in smith.inventory j)
      (consume_item 2 3 smith)
unfolding run_all
consume_item-Succeeds_example = consume_item-Succeeds 2 3 smith (refl, (refl, tt)) (omega arith)

-- The second rift asks for floor 2 of the first.
abbrev rifts : List RiftDefinition
rifts =
    record { id = 1; floors = 1 ∷ 2 ∷ []; unlock_requires = none }
    ∷ record { id = 2; floors = 1 ∷ []; unlock_requires = some (1, 2) }
    ∷ []

abbrev first_rift : RiftDefinition
first_rift = record { id = 1; floors = 1 ∷ 2 ∷ []; unlock_requires = none }

complete_rift_floor-Succeeds_example :
    Succeeds
      (λ p'.
        Grows smith.rift_progress p'.rift_progress
        × Completes rifts first_rift 1 1 p'.rift_progress)
      (complete_rift_floor rifts 1 1 smith)
unfolding run_all
complete_rift_floor-Succeeds_example =
    complete_rift_floor-Succeeds rifts 1 1 smith first_rift refl refl (omega arith)
