-- ===== src/Loot/Tests.antt =====
-- The loot of an encounter on a concrete party.
use vaelmour_game.Prelude.{ℕ, ◌≡◌, refl, true, false, List, [], ◌∷◌}
use vaelmour_game.Prelude.Dict.{Dict}
use vaelmour_game.Prelude.Entries.{AllEntries}
use vaelmour_game.Data.{CharacterClass, PersonalLoot, Profession}
use vaelmour_game.Combat.Types.{EnemyKind}
use vaelmour_game.Combat.Thousandths.{thousandths}
use vaelmour_game.Loot.{
  LootParticipant, LootOptions, profession_of, is_of_trade, is_profession, add_resource, add_recipe,
  credit, choose, role_index, resource_roll, recipe_roll, profession_rolls, all_professions,
  generic_rolls, no_drops, generate_profession_loot,
}
use vaelmour_game.Loot.Living.{ForLiving, generate_profession_loot-ForLiving}

abbrev tables : LootOptions ℕ
tables = record {
  combat_class_chance = 600;
  correct_profession_chance = 600;
  recipe_chance = λ kind. 100;
  resources = λ profession. 11 ∷ 12 ∷ 13 ∷ [];
  recipes = λ profession. 21 ∷ [];
  generic_resources = 31 ∷ 32 ∷ [];
}

-- A blacksmith and a warrior live, an alchemist does not.
abbrev party : List LootParticipant
party =
    (record { id = 1; class_id = CharacterClass.blacksmith; alive = true })
    ∷ (record { id = 2; class_id = CharacterClass.alchemist; alive = false })
    ∷ (record { id = 3; class_id = CharacterClass.warrior; alive = true })
    ∷ []

abbrev spoils : Dict PersonalLoot
spoils =
    (1, record { resources = (13, 2) ∷ []; recipe_ids = [] })
    ∷ (2, record { resources = []; recipe_ids = [] })
    ∷ (3, record { resources = (32, 1) ∷ []; recipe_ids = [] })
    ∷ []

chances : Unit {0}
unfolding profession_of is_of_trade is_profession add_resource add_recipe credit choose role_index
    resource_roll recipe_roll profession_rolls all_professions generic_rolls no_drops
    generate_profession_loot
chances = tt

boss-spoils : (generate_profession_loot thousandths tables party EnemyKind.boss 0).personal ≡ spoils
unfolding chances
boss-spoils = refl

-- Only the blacksmith's pool is rolled: the alchemist is dead.
boss-rolls :
    ((generate_profession_loot thousandths tables party EnemyKind.boss 0).profession_pool_rolls
        Profession.blacksmith
      ≡ 1)
    × ((generate_profession_loot thousandths tables party EnemyKind.boss 0).recipe_rolls
          Profession.alchemist
        ≡ 0)
unfolding chances
boss-rolls = (refl, refl)

generate_profession_loot-ForLiving_example :
    AllEntries
      (ForLiving party)
      (generate_profession_loot thousandths tables party EnemyKind.boss 0).personal
generate_profession_loot-ForLiving_example =
    generate_profession_loot-ForLiving thousandths tables party EnemyKind.boss 0
