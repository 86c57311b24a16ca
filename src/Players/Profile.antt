-- ===== src/Players/Profile.antt =====
-- stats and toCharacter of server/players/PlayerStateService.ts, with CLASSES of
-- src/data/config/balance.ts.
use vaelmour_game.Prelude.{ℕ, ◌+◌, ◌-◌, ◌*◌, true, false, Option, none, some, List, [], ◌∷◌}
use vaelmour_game.Data.{
  CharacterClass, ItemDefinition, InventoryEntry, EquipmentState, StoredPlayerProfile,
}
use vaelmour_game.Combat.Types.{Character}

-- An attack and hit points.
pub record Stats : Type 0 where
  pub attack : ℕ
  pub max_hp : ℕ

unfoldable pub classes : CharacterClass → Stats
classes CharacterClass.warrior = record { attack = 85; max_hp = 1050 }
classes CharacterClass.ranger = record { attack = 100; max_hp = 800 }
classes CharacterClass.blacksmith = record { attack = 60; max_hp = 1150 }
classes CharacterClass.alchemist = record { attack = 65; max_hp = 1000 }
classes CharacterClass.jeweler = record { attack = 70; max_hp = 900 }

-- `Object.values(profile.equipment)`
abbrev pub slots : EquipmentState → List (Option InventoryEntry)
slots q =
    q.weapon ∷ q.head ∷ q.chest ∷ q.hands ∷ q.legs ∷ q.feet ∷ q.ring1 ∷ q.ring2 ∷ q.amulet ∷ []

-- `item?.attack ?? 0` and `item?.hp ?? 0`
abbrev pub bonus : (ItemDefinition → Option ℕ) → Option ItemDefinition → ℕ
bonus field none = 0
bonus field (some d) = elim (field d) [ none ↦ 0 | some n ↦ n ]

module _ (catalog : ℕ → Option ItemDefinition) where
  -- The loop over the equipment.
  unfoldable pub add_bonuses : List (Option InventoryEntry) → Stats → Stats
  add_bonuses [] s = s
  add_bonuses (none ∷ es) s = add_bonuses es s
  add_bonuses (some e ∷ es) s =
      let item = catalog e.item_id in
      add_bonuses es (record {
        attack = s.attack + bonus (λ d. d.attack) item;
        max_hp = s.max_hp + bonus (λ d. d.hp) item;
      })

  -- `base + level - 1` and `base + (level - 1) * 5`: no base is below 5, so neither is below 0.
  unfoldable pub stats : StoredPlayerProfile → Stats
  stats p =
      let base = classes p.class_id in
      add_bonuses (slots p.equipment)
        (record { attack = base.attack + p.level - 1; max_hp = base.max_hp + p.level * 5 - 5 })

  unfoldable pub to_character : StoredPlayerProfile → Character
  to_character p =
      let s = stats p in
      record {
        id = p.player_id;
        name = p.name;
        class_id = p.class_id;
        level = p.level;
        current_xp = p.current_xp;
        attack = s.attack;
        max_hp = s.max_hp;
        current_hp = s.max_hp;
        alive = true;
        ready = false;
      }
