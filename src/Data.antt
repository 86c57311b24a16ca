-- ===== src/Data.antt =====
-- shared/game-data/types.ts and the stored profile of server/repositories/types.ts. Every string
-- that serves as an identifier is a number, since the code only compares it.
use vaelmour_game.Prelude.{ℕ, Bool, true, false, Option, List, ◌==◌, any}
use vaelmour_game.Prelude.Int.{ℤ}
use vaelmour_game.Prelude.Dict.{Dict}

pub data CharacterClass : Type 0 where
  warrior ranger blacksmith alchemist jeweler : CharacterClass

pub data Profession : Type 0 where
  blacksmith alchemist jeweler : Profession

pub data ItemEquipType : Type 0 where
  weapon head chest hands legs feet ring amulet : ItemEquipType

pub data EquipmentSlot : Type 0 where
  weapon head chest hands legs feet ring1 ring2 amulet : EquipmentSlot

pub record ItemDefinition : Type 0 where
  pub stackable : Bool
  pub equip_type : Option ItemEquipType
  pub allowed_class : Option CharacterClass
  pub attack : Option ℕ
  pub hp : Option ℕ
  pub recipe_id : Option ℕ

pub record RecipeDefinition : Type 0 where
  pub id : ℕ
  pub profession : Profession
  pub output_item_id : ℕ
  pub output_quantity : ℕ
  pub requirements : Dict ℕ

pub record InventoryEntry : Type 0 where
  pub entry_id : ℕ
  pub item_id : ℕ
  pub quantity : ℕ

pub record EquipmentState : Type 0 where
  pub weapon : Option InventoryEntry
  pub head : Option InventoryEntry
  pub chest : Option InventoryEntry
  pub hands : Option InventoryEntry
  pub legs : Option InventoryEntry
  pub feet : Option InventoryEntry
  pub ring1 : Option InventoryEntry
  pub ring2 : Option InventoryEntry
  pub amulet : Option InventoryEntry

pub record PlayerRiftProgress : Type 0 where
  pub rift_id : ℕ
  pub highest_unlocked_floor : ℕ
  pub highest_completed_floor : ℕ
  pub completion_count : Dict ℕ

pub data EscrowLocation : Type 0 where
  market_escrow trade_escrow : EscrowLocation

pub record ReservedItemEntry : Type 0 where
  pub entry_id : ℕ
  pub item_id : ℕ
  pub quantity : ℕ
  pub location : EscrowLocation

-- Coins are integers: the source subtracts from `reservedCoins` with no test in one place.
pub record StoredPlayerProfile : Type 0 where
  pub account_id : ℕ
  pub player_id : ℕ
  pub name : ℕ
  pub name_key : ℕ
  pub class_id : CharacterClass
  pub level : ℕ
  pub current_xp : ℕ
  pub coins : ℤ
  pub reserved_coins : ℤ
  pub inventory : List InventoryEntry
  pub storage : List InventoryEntry
  pub equipment : EquipmentState
  pub learned_recipes : List ℕ
  pub reserved_items : List ReservedItemEntry
  pub rift_progress : Dict PlayerRiftProgress

abbrev pub in_market : ReservedItemEntry → Bool
in_market e = elim e.location [ market_escrow ↦ true | trade_escrow ↦ false ]

abbrev pub in_trade : ReservedItemEntry → Bool
in_trade e = elim e.location [ market_escrow ↦ false | trade_escrow ↦ true ]

-- `ids.includes(id)`
abbrev pub includes : List ℕ → ℕ → Bool
includes ids id = any (λ x. x == id) ids

pub record PersonalLoot : Type 0 where
  pub resources : Dict ℕ
  pub recipe_ids : List ℕ
