-- ===== src/Players/Inventory.antt =====
-- equip, unequip, move, learnRecipe, craft, consumeItem, commitLoot and the grants of
-- server/players/PlayerStateService.ts, each as what it does to the working profile.
use vaelmour_game.Prelude.{
  ℕ, Bool, false, not, Option, none, some, List, [], ◌∷◌, ◌++◌, ◌==◌, if◌then◌else◌, find,
  remove_first,
}
use vaelmour_game.Data.{
  CharacterClass, Profession, ItemEquipType, EquipmentSlot, ItemDefinition, RecipeDefinition,
  InventoryEntry, EquipmentState, StoredPlayerProfile,
}
use vaelmour_game.Players.Attempt.{
  Attempt, done, refused, ◌>>=◌, ◌>>◌, or_refuse, refuse_if, item_not_owned, not_equipment,
  wrong_class, wrong_slot, slot_empty,
}
use vaelmour_game.Players.Bag.{Supply, has_id}

-- The working profile, with how many answers of `randomUUID` have been used.
pub record Working : Type 0 where
  pub profile : StoredPlayerProfile
  pub draws : ℕ

-- `equipment[slot]`
unfoldable pub worn_in : EquipmentState → EquipmentSlot → Option InventoryEntry
worn_in q EquipmentSlot.weapon = q.weapon
worn_in q EquipmentSlot.head = q.head
worn_in q EquipmentSlot.chest = q.chest
worn_in q EquipmentSlot.hands = q.hands
worn_in q EquipmentSlot.legs = q.legs
worn_in q EquipmentSlot.feet = q.feet
worn_in q EquipmentSlot.ring1 = q.ring1
worn_in q EquipmentSlot.ring2 = q.ring2
worn_in q EquipmentSlot.amulet = q.amulet

-- `equipment[slot] = entry`
unfoldable pub wear : EquipmentSlot → Option InventoryEntry → EquipmentState → EquipmentState
wear EquipmentSlot.weapon e q = record q { weapon = e }
wear EquipmentSlot.head e q = record q { head = e }
wear EquipmentSlot.chest e q = record q { chest = e }
wear EquipmentSlot.hands e q = record q { hands = e }
wear EquipmentSlot.legs e q = record q { legs = e }
wear EquipmentSlot.feet e q = record q { feet = e }
wear EquipmentSlot.ring1 e q = record q { ring1 = e }
wear EquipmentSlot.ring2 e q = record q { ring2 = e }
wear EquipmentSlot.amulet e q = record q { amulet = e }

abbrev pub slot_number : EquipmentSlot → ℕ
slot_number EquipmentSlot.weapon = 0
slot_number EquipmentSlot.head = 1
slot_number EquipmentSlot.chest = 2
slot_number EquipmentSlot.hands = 3
slot_number EquipmentSlot.legs = 4
slot_number EquipmentSlot.feet = 5
slot_number EquipmentSlot.ring1 = 6
slot_number EquipmentSlot.ring2 = 7
slot_number EquipmentSlot.amulet = 8

-- `const slot = type; if (requested && requested !== slot) throw`
abbrev pub fixed_slot : EquipmentSlot → Option EquipmentSlot → Attempt EquipmentSlot
fixed_slot slot none = done slot
fixed_slot slot (some r) =
    if slot_number r == slot_number slot then done slot else refused wrong_slot

abbrev pub ring_slot : Option EquipmentSlot → Option InventoryEntry → Attempt EquipmentSlot
ring_slot (some EquipmentSlot.ring1) _ = done EquipmentSlot.ring1
ring_slot (some EquipmentSlot.ring2) _ = done EquipmentSlot.ring2
ring_slot (some _) _ = refused wrong_slot
ring_slot none none = done EquipmentSlot.ring1
ring_slot none (some _) = done EquipmentSlot.ring2

unfoldable pub resolve_slot :
    ItemEquipType → Option EquipmentSlot → EquipmentState → Attempt EquipmentSlot
resolve_slot ItemEquipType.ring r q = ring_slot r q.ring1
resolve_slot ItemEquipType.weapon r q = fixed_slot EquipmentSlot.weapon r
resolve_slot ItemEquipType.head r q = fixed_slot EquipmentSlot.head r
resolve_slot ItemEquipType.chest r q = fixed_slot EquipmentSlot.chest r
resolve_slot ItemEquipType.hands r q = fixed_slot EquipmentSlot.hands r
resolve_slot ItemEquipType.legs r q = fixed_slot EquipmentSlot.legs r
resolve_slot ItemEquipType.feet r q = fixed_slot EquipmentSlot.feet r
resolve_slot ItemEquipType.amulet r q = fixed_slot EquipmentSlot.amulet r

abbrev pub class_number : CharacterClass → ℕ
class_number CharacterClass.warrior = 0
class_number CharacterClass.ranger = 1
class_number CharacterClass.blacksmith = 2
class_number CharacterClass.alchemist = 3
class_number CharacterClass.jeweler = 4

abbrev pub class_of : Profession → CharacterClass
class_of Profession.blacksmith = CharacterClass.blacksmith
class_of Profession.alchemist = CharacterClass.alchemist
class_of Profession.jeweler = CharacterClass.jeweler

-- `item.allowedClass && item.allowedClass !== working.classId`
abbrev pub wrong_for : Option CharacterClass → CharacterClass → Bool
wrong_for none c = false
wrong_for (some a) c = not (class_number a == class_number c)

-- `!isProfessionClass(classId) || recipe.profession !== classId`: a profession is one of the classes
-- that `isProfessionClass` accepts, so that the second test settles both.
abbrev pub not_of_trade : RecipeDefinition → CharacterClass → Bool
not_of_trade r c = not (class_number (class_of r.profession) == class_number c)

-- What was in the slot goes back to the inventory.
abbrev pub push_worn : Option InventoryEntry → List InventoryEntry → List InventoryEntry
push_worn none es = es
push_worn (some e) es = es ++ e ∷ []

abbrev pub equip_type_of : Option ItemDefinition → Option ItemEquipType
equip_type_of none = none
equip_type_of (some d) = d.equip_type

abbrev pub allowed_class_of : Option ItemDefinition → Option CharacterClass
allowed_class_of none = none
allowed_class_of (some d) = d.allowed_class

unfoldable pub equip :
    Supply → ℕ → Option EquipmentSlot → StoredPlayerProfile → Attempt StoredPlayerProfile
equip supply entry_id requested p = do
  entry ← or_refuse (find (has_id entry_id) p.inventory) item_not_owned
  type ← or_refuse (equip_type_of (supply.catalog entry.item_id)) not_equipment
  refuse_if (wrong_for (allowed_class_of (supply.catalog entry.item_id)) p.class_id) wrong_class
  slot ← resolve_slot type requested p.equipment
  done (record p {
    inventory = push_worn (worn_in p.equipment slot) (remove_first (has_id entry_id) p.inventory);
    equipment = wear slot (some (record entry { quantity = 1 })) p.equipment;
  })

unfoldable pub unequip : EquipmentSlot → StoredPlayerProfile → Attempt StoredPlayerProfile
unequip slot p = do
  entry ← or_refuse (worn_in p.equipment slot) slot_empty
  done (record p { inventory = p.inventory ++ entry ∷ []; equipment = wear slot none p.equipment })
