-- ===== src/Players/Outcomes.antt =====
-- When the operations of server/players/PlayerStateService.ts succeed, and what they do then.
use vaelmour_game.Prelude.{
  ℕ, ◌+◌, ◌-◌, ◌≤◌, ◌≡◌, refl, Bool, true, false, Option, none, some, List, ltb, find, arith, All,
}
use vaelmour_game.Prelude.Int.{ℤ}
use vaelmour_game.Data.{
  ItemEquipType, EquipmentSlot, ItemDefinition, InventoryEntry, RecipeDefinition,
  StoredPlayerProfile, includes,
}
use vaelmour_game.Players.Attempt.{
  Attempt, done, refused, Code, ◌>>=◌, or_refuse, refuse_if, item_not_owned, slot_empty,
  not_equipment, wrong_class, recipe_not_learned, wrong_profession, not_enough_resources,
  not_enough_items, invalid_rift_floor, rift_floor_locked,
}
use vaelmour_game.Players.Bag.{Supply, Bag, has_id, count_in, existing, add_defined, add_item}
use vaelmour_game.Players.Inventory.{
  Working, worn_in, equip_type_of, allowed_class_of, wrong_for, resolve_slot, not_of_trade, equip,
  unequip,
}
use vaelmour_game.Players.Items.{move_between, move, give, lacks, known_recipe, craft, consume_item}
use vaelmour_game.Players.Rifts.{
  RiftDefinition, rift_definition, current_progress, complete_rift_floor,
}
use vaelmour_game.Players.Counts.{Holds, After, of_item}
use vaelmour_game.Players.Held.{
  held, KeepsHeld, HasUnits, equip-Held, unequip-KeepsHeld, move-KeepsHeld,
}
use vaelmour_game.Players.Consumed.{Distinct}
use vaelmour_game.Players.Crafted.{required, HasKeysOnce, craft-Crafted, consume_item-Consumed}
use vaelmour_game.Players.Unlocks.{Grows, Completes, complete_rift_floor-Completes}

-- The attempt is not refused, and its result has the property.
abbrev pub Succeeds : {A : Type 0} → (A → Type 0) → Attempt A → Type 0
Succeeds P (done a) = P a
Succeeds P (refused _) = ⊥

-- The attempt is not refused.
pub record Passes {A : Type 0} (m : Attempt A) : Type 0 where
  pub passes : Succeeds (λ _. Unit {0}) m

After-Succeeds : {A : Type 0} (P : A → Type 0) (m : Attempt A) → After P m → Passes m → Succeeds P m
After-Succeeds P m h k = go m h.holds k.passes
  where
    go : (r : Attempt _) → Holds P r → Succeeds (λ _. Unit {0}) r → Succeeds P r
    go (done a) p q = p
    go (refused c) p q = absurd q

Passes-done : {A : Type 0} (a : A) → Passes (done a)
Passes-done a = record { passes = tt }

Passes-bind :
    {A B : Type 0} {m : Attempt A} {f : A → Attempt B} (a : A)
    → m ≡ done a
    → ((x : A) → x ≡ a → Passes (f x))
    → Passes (m >>= f)
unfolding ◌>>=◌
Passes-bind a e h = rw e (h a refl)

-- A step that always passes.
Passes-any :
    {A B : Type 0} {m : Attempt A} {f : A → Attempt B}
    → Passes m
    → ((a : A) → Passes (f a))
    → Passes (m >>= f)
unfolding ◌>>=◌
Passes-any {A} {B} {m} {f} h k = go m h.passes
  where
    go : (r : Attempt A) → Succeeds (λ _. Unit {0}) r → Passes (r >>= f)
    go (done a) q = record { passes = (k a).passes }
    go (refused c) q = absurd q

or_refuse-some :
    {A : Type 0} (o : Option A) (c : Code) (a : A) → o ≡ some a → or_refuse o c ≡ done a
or_refuse-some o c a h = rw h refl

refuse_if-false : (b : Bool) (c : Code) → b ≡ false → refuse_if b c ≡ done tt
refuse_if-false b c h = rw h refl

add_item-Passes :
    (supply : Supply) (d : ItemDefinition) (item_id quantity : ℕ) (preferred : Option ℕ) (b : Bag)
    → supply.catalog item_id ≡ some d
    → Passes (add_item supply item_id quantity preferred b)
unfolding add_item
add_item-Passes supply d item_id quantity preferred b h =
    rw h (go (existing supply item_id d b) refl)
  where
    go :
        (o : Option InventoryEntry)
        → existing supply item_id d b ≡ o
        → Passes (add_defined supply (some d) item_id quantity preferred b)
    go none e = rw (e, add_defined) (Passes-done _)
    go (some x) e = rw (e, add_defined) (Passes-done _)

give-Passes :
    (supply : Supply) (d : ItemDefinition) (item_id quantity : ℕ) (w : Working)
    → supply.catalog item_id ≡ some d
    → Passes (give supply item_id quantity w)
unfolding give
give-Passes supply d item_id quantity w h =
    Passes-any (add_item-Passes supply d item_id quantity none _ h) λ bag. Passes-done _

-- Taking off what is in a slot succeeds, and the player holds what it held, of every item.
pub unequip-Succeeds :
    (slot : EquipmentSlot) (p : StoredPlayerProfile) (e : InventoryEntry)
    → worn_in p.equipment slot ≡ some e
    → Succeeds (KeepsHeld p) (unequip slot p)
unfolding unequip
unequip-Succeeds slot p e worn = After-Succeeds (KeepsHeld p) _ (unequip-KeepsHeld slot p) (
    Passes-bind e (or_refuse-some (worn_in p.equipment slot) slot_empty e worn)
      λ x _. Passes-done _)

-- Where the entries have different identifiers and there is enough of the item, a use of it succeeds
-- and takes just so many units of it, and nothing else.
pub consume_item-Succeeds :
    (item_id quantity : ℕ) (p : StoredPlayerProfile)
    → Distinct p.inventory
    → quantity ≤ count_in p.inventory item_id
    → Succeeds
        (λ p'.
          (j : ℕ) → count_in p'.inventory j + of_item item_id quantity j ≡ count_in p.inventory j)
        (consume_item item_id quantity p)
unfolding consume_item
consume_item-Succeeds item_id quantity p d le =
    After-Succeeds _ _ (consume_item-Consumed item_id quantity p d) (
      Passes-bind tt
        (refuse_if-false (ltb (count_in p.inventory item_id) quantity) not_enough_items
          (ground arith))
        λ x _. Passes-done _)

-- The list that an entry moves from.
abbrev pub source_of : Bool → StoredPlayerProfile → List InventoryEntry
source_of true p = p.inventory
source_of false p = p.storage

move_between-Passes :
    (supply : Supply) (entry_id : ℕ) (requested : Option ℤ) (source : List InventoryEntry)
    (target : Bag) (e : InventoryEntry) (d : ItemDefinition)
    → find (has_id entry_id) source ≡ some e
    → supply.catalog e.item_id ≡ some d
    → Passes (move_between supply entry_id requested source target)
unfolding move_between
move_between-Passes supply entry_id requested source target e d found known =
    Passes-bind e (or_refuse-some (find (has_id entry_id) source) item_not_owned e found) λ x same.
      Passes-any (add_item-Passes supply d _ _ _ _ (rw same known)) λ filled. Passes-done _

move-Passes :
    (supply : Supply) (entry_id : ℕ) (to_storage : Bool) (requested : Option ℤ) (w : Working)
    (e : InventoryEntry) (d : ItemDefinition)
    → find (has_id entry_id) (source_of to_storage w.profile) ≡ some e
    → supply.catalog e.item_id ≡ some d
    → Passes (move supply entry_id to_storage requested w)
unfolding move
move-Passes supply entry_id true requested w e d found known =
    Passes-any (move_between-Passes supply entry_id requested _ _ e d found known)
      λ r. Passes-done _
move-Passes supply entry_id false requested w e d found known =
    Passes-any (move_between-Passes supply entry_id requested _ _ e d found known)
      λ r. Passes-done _

-- Where every entry holds at least one unit, moving an entry of an item of the catalog, or a part of
-- it, to the storage or back succeeds, and the player holds what it held, of every item.
pub move-Succeeds :
    (supply : Supply) (entry_id : ℕ) (to_storage : Bool) (requested : Option ℤ) (w : Working)
    (e : InventoryEntry) (d : ItemDefinition)
    → All HasUnits w.profile.inventory
    → All HasUnits w.profile.storage
    → find (has_id entry_id) (source_of to_storage w.profile) ≡ some e
    → supply.catalog e.item_id ≡ some d
    → Succeeds (λ w'. KeepsHeld w.profile w'.profile) (move supply entry_id to_storage requested w)
move-Succeeds supply entry_id to_storage requested w e d inv sto found known =
    After-Succeeds _ _ (move-KeepsHeld supply entry_id to_storage requested w inv sto)
      (move-Passes supply entry_id to_storage requested w e d found known)

-- Putting on an entry of at least one unit succeeds where it is equipment that the class may wear and
-- a slot is found for it; the player holds what it held, of every item, less the units of the entry
-- past the first.
pub equip-Succeeds :
    (supply : Supply) (entry_id : ℕ) (requested : Option EquipmentSlot) (p : StoredPlayerProfile)
    (e : InventoryEntry) (type : ItemEquipType) (slot : EquipmentSlot)
    → find (has_id entry_id) p.inventory ≡ some e
    → 1 ≤ e.quantity
    → equip_type_of (supply.catalog e.item_id) ≡ some type
    → wrong_for (allowed_class_of (supply.catalog e.item_id)) p.class_id ≡ false
    → resolve_slot type requested p.equipment ≡ done slot
    → Succeeds
        (λ p'. (j : ℕ) → held p' j + of_item e.item_id (e.quantity - 1) j ≡ held p j)
        (equip supply entry_id requested p)
unfolding equip
equip-Succeeds supply entry_id requested p e type slot owned units typed allowed fits =
    After-Succeeds _ _ (equip-Held supply entry_id requested p e owned units) (
      Passes-bind e (or_refuse-some (find (has_id entry_id) p.inventory) item_not_owned e owned)
        λ x same. rw same (
          Passes-bind type
            (or_refuse-some (equip_type_of (supply.catalog e.item_id)) not_equipment type typed)
            λ t same'. rw same' (
              Passes-bind tt (refuse_if-false _ wrong_class allowed)
                λ _ _. Passes-bind slot fits λ s _. Passes-done _)))

-- Where the entries have different identifiers, the recipe is known and of the class's profession,
-- names each item once, there is enough of each, and the output is in the catalog, crafting it
-- succeeds: it takes just what the recipe requires out of the inventory and adds just its output, of every item.
pub craft-Succeeds :
    (supply : Supply) (recipes : ℕ → Option RecipeDefinition) (recipe_id : ℕ) (w : Working)
    (r : RecipeDefinition) (d : ItemDefinition)
    → Distinct w.profile.inventory
    → known_recipe recipes recipe_id w.profile ≡ some r
    → HasKeysOnce r.requirements
    → not_of_trade r w.profile.class_id ≡ false
    → lacks w.profile.inventory r.requirements ≡ false
    → supply.catalog r.output_item_id ≡ some d
    → Succeeds
        (λ w'.
          (j : ℕ)
          → count_in w'.profile.inventory j + required r.requirements j
            ≡ count_in w.profile.inventory j + of_item r.output_item_id r.output_quantity j)
        (craft supply recipes recipe_id w)
unfolding craft
craft-Succeeds supply recipes recipe_id w r d distinct known once trade stocked output =
    After-Succeeds _ _ (craft-Crafted supply recipes recipe_id w r distinct known once) (
      Passes-bind r
        (or_refuse-some (known_recipe recipes recipe_id w.profile) recipe_not_learned r known)
        λ x same. rw same (
          Passes-bind tt (refuse_if-false _ wrong_profession trade) λ _ _.
            Passes-bind tt (refuse_if-false _ not_enough_resources stocked)
              λ _ _. give-Passes supply d _ _ _ output))

-- Where the rift has the floor and it is unlocked, completing it succeeds: it counts as completed,
-- the floor above it is unlocked if the rift has one, and in no rift does the highest floor that is
-- unlocked or completed go down.
pub complete_rift_floor-Succeeds :
    (rifts : List RiftDefinition) (id floor : ℕ) (p : StoredPlayerProfile)
    (definition : RiftDefinition)
    → rift_definition rifts id ≡ some definition
    → includes definition.floors floor ≡ true
    → floor ≤ (current_progress rifts id p.rift_progress).highest_unlocked_floor
    → Succeeds
        (λ p'.
          Grows p.rift_progress p'.rift_progress
          × Completes rifts definition id floor p'.rift_progress)
        (complete_rift_floor rifts id floor p)
unfolding complete_rift_floor
complete_rift_floor-Succeeds rifts id floor p definition known has open_ =
    After-Succeeds _ _ (complete_rift_floor-Completes rifts id floor p definition known) (
      Passes-bind definition
        (or_refuse-some (rift_definition rifts id) invalid_rift_floor definition known)
        λ x same. rw same (
          Passes-bind tt (refuse_if-false _ invalid_rift_floor (rw has refl)) λ _ _.
            Passes-bind tt (refuse_if-false _ rift_floor_locked (ground arith))
              λ _ _. Passes-done _))
