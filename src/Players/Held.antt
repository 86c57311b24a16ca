-- ===== src/Players/Held.antt =====
-- equip, unequip and move of server/players/PlayerStateService.ts keep the items of a player.
use vaelmour_game.Prelude.{
  ℕ, ◌+◌, ◌-◌, ◌≤◌, ◌≡◌, refl, Bool, true, false, Option, none, some, List, ◌==◌, find,
  remove_first, change_first, arith, Bool-cases, Option-cases, ◌⊎◌, inl, inr, ==_iff, All,
  find-some,
}
use vaelmour_game.Prelude.Int.{ℤ, pos, negsuc}
use vaelmour_game.Data.{
  InventoryEntry, ItemDefinition, EquipmentSlot, EquipmentState, StoredPlayerProfile,
}
use vaelmour_game.Players.Attempt.{slot_empty, item_not_owned}
use vaelmour_game.Players.Bag.{
  Supply, Bag, has_id, has_item, count_in, existing, push_entry, add_defined, add_item,
}
use vaelmour_game.Players.Inventory.{Working, worn_in, wear, push_worn, equip, unequip}
use vaelmour_game.Players.Items.{take_out, moved_quantity, move_between, move}
use vaelmour_game.Players.Counts.{
  After, After-bind, After-or_refuse, After-any, After-done, of_item, count_in-push,
  count_in-remove_first, count_in-change_first, find-holds,
}

-- The bag has the units added, and nothing else has changed.
abbrev pub Adds : Bag → ℕ → ℕ → Bag → Type 0
Adds b item_id quantity b' =
    (j : ℕ) → count_in b'.entries j ≡ count_in b.entries j + of_item item_id quantity j

module _ (supply : Supply) where
  push_entry-Adds :
      (item_id quantity : ℕ) (preferred : Option ℕ) (b : Bag)
      → Adds b item_id quantity (push_entry supply item_id quantity preferred b)
  push_entry-Adds item_id quantity none b j = count_in-push b.entries _ j
  push_entry-Adds item_id quantity (some id) b j = count_in-push b.entries _ j

  add_defined-Adds :
      (o : Option ItemDefinition) (item_id quantity : ℕ) (preferred : Option ℕ) (b : Bag)
      → After (Adds b item_id quantity) (add_defined supply o item_id quantity preferred b)
  add_defined-Adds none item_id quantity preferred b = record { holds = tt }
  add_defined-Adds (some d) item_id quantity preferred b =
      elim (Option-cases (existing supply item_id d b)) [
        | inl fresh ↦
            rw (fresh, add_defined)
              (After-done (Adds b item_id quantity) _
                (push_entry-Adds item_id quantity preferred b))
        | inr (e, old) ↦
            rw (old, add_defined)
              (After-done (Adds b item_id quantity) _
                (λ j. stacked (Bool-cases d.stackable) e old j))
      ]
    where
      stacked :
          (d.stackable ≡ true) ⊎ (d.stackable ≡ false)
          → (e : InventoryEntry) → existing supply item_id d b ≡ some e
          → (j : ℕ)
          → count_in
              (change_first
                (has_item item_id)
                (λ x. record x { quantity = x.quantity + quantity })
                b.entries)
              j
            ≡ count_in b.entries j + of_item item_id quantity j
      stacked (inl yes_) e old j =
          let hit : find (has_item item_id) b.entries ≡ some e = rw yes_ at old in
          let same : e.item_id ≡ item_id =
            (==_iff e.item_id item_id).0 (find-holds (has_item item_id) b.entries e hit) in
          let change =
            count_in-change_first (has_item item_id) (λ n. n + quantity) b.entries e j hit in
          let sum : of_item e.item_id (e.quantity + quantity) j
              ≡ of_item e.item_id e.quantity j + of_item item_id quantity j =
            rw same (ground arith) in
          omega (arith, change, sum)
      stacked (inr no_) e old j = cc (rw no_ at old)

  pub add_item-Adds :
      (item_id quantity : ℕ) (preferred : Option ℕ) (b : Bag)
      → After (Adds b item_id quantity) (add_item supply item_id quantity preferred b)
  unfolding add_item
  add_item-Adds item_id quantity preferred b =
      add_defined-Adds (supply.catalog item_id) item_id quantity preferred b

-- The units of an item in what is worn.
abbrev pub count_worn : Option InventoryEntry → ℕ → ℕ
count_worn none j = 0
count_worn (some e) j = of_item e.item_id e.quantity j

unfoldable pub count_equipment : EquipmentState → ℕ → ℕ
count_equipment q j =
    count_worn q.weapon j
    + count_worn q.head j
    + count_worn q.chest j
    + count_worn q.hands j
    + count_worn q.legs j
    + count_worn q.feet j
    + count_worn q.ring1 j
    + count_worn q.ring2 j
    + count_worn q.amulet j

-- The units of an item that a player has at hand, in the storage and on.
abbrev pub held : StoredPlayerProfile → ℕ → ℕ
held p j = count_in p.inventory j + count_in p.storage j + count_equipment p.equipment j

wear-count :
    (slot : EquipmentSlot) (e : Option InventoryEntry) (q : EquipmentState) (j : ℕ)
    → count_equipment (wear slot e q) j + count_worn (worn_in q slot) j
      ≡ count_equipment q j + count_worn e j
unfolding count_equipment wear worn_in
wear-count EquipmentSlot.weapon e q j = omega arith
wear-count EquipmentSlot.head e q j = omega arith
wear-count EquipmentSlot.chest e q j = omega arith
wear-count EquipmentSlot.hands e q j = omega arith
wear-count EquipmentSlot.legs e q j = omega arith
wear-count EquipmentSlot.feet e q j = omega arith
wear-count EquipmentSlot.ring1 e q j = omega arith
wear-count EquipmentSlot.ring2 e q j = omega arith
wear-count EquipmentSlot.amulet e q j = omega arith

push_worn-count :
    (o : Option InventoryEntry) (es : List InventoryEntry) (j : ℕ)
    → count_in (push_worn o es) j ≡ count_in es j + count_worn o j
push_worn-count none es j = omega arith
push_worn-count (some e) es j = count_in-push es e j

-- The player holds what it held.
abbrev pub KeepsHeld : StoredPlayerProfile → StoredPlayerProfile → Type 0
KeepsHeld p p' = (j : ℕ) → held p' j ≡ held p j

-- A player who takes off what is in a slot holds what it held, of every item.
pub unequip-KeepsHeld :
    (slot : EquipmentSlot) (p : StoredPlayerProfile) → After (KeepsHeld p) (unequip slot p)
unfolding unequip
unequip-KeepsHeld slot p =
    After-bind (λ e. worn_in p.equipment slot ≡ some e) (KeepsHeld p)
      (After-or_refuse (worn_in p.equipment slot) slot_empty)
      λ e worn. After-done (KeepsHeld p) _ λ j.
        let off = wear-count slot none p.equipment j in
        let back = count_in-push p.inventory e j in
        let was : count_worn (worn_in p.equipment slot) j ≡ of_item e.item_id e.quantity j =
          rw worn refl in
        omega (arith, off, back, was)

-- Where the entry holds at least one unit, a player who puts it on holds what it held, of every
-- item, less the units of the entry past the first: one unit is worn, and the entry is gone.
pub equip-Held :
    (supply : Supply) (entry_id : ℕ) (requested : Option EquipmentSlot) (p : StoredPlayerProfile)
    (e : InventoryEntry)
    → find (has_id entry_id) p.inventory ≡ some e
    → 1 ≤ e.quantity
    → After
        (λ p'. (j : ℕ) → held p' j + of_item e.item_id (e.quantity - 1) j ≡ held p j)
        (equip supply entry_id requested p)
unfolding equip
equip-Held supply entry_id requested p e owned units =
    After-bind (λ x. find (has_id entry_id) p.inventory ≡ some x) Goal
      (After-or_refuse (find (has_id entry_id) p.inventory) item_not_owned)
      λ x found.
        After-bind (λ _. Unit {0}) Goal (After-any _)
          λ type _.
            After-bind (λ _. Unit {0}) Goal (After-any _)
              λ _ _.
                After-bind (λ _. Unit {0}) Goal (After-any _)
                  λ slot _. After-done Goal _ (worn x found slot)
  where
    Goal : StoredPlayerProfile → Type 0
    Goal p' = (j : ℕ) → held p' j + of_item e.item_id (e.quantity - 1) j ≡ held p j

    worn :
        (x : InventoryEntry)
        → find (has_id entry_id) p.inventory ≡ some x
        → (slot : EquipmentSlot)
        → Goal (record p {
          inventory =
              push_worn (worn_in p.equipment slot) (remove_first (has_id entry_id) p.inventory);
          equipment = wear slot (some (record x { quantity = 1 })) p.equipment;
        })
    worn x found slot j =
        let both : some x ≡ some e = cc in
        let same : x ≡ e = cc in
        rw same (
          let gone = count_in-remove_first (has_id entry_id) p.inventory e j owned in
          let back =
            push_worn-count (worn_in p.equipment slot) (remove_first (has_id entry_id) p.inventory)
              j in
          let on = wear-count slot (some (record e { quantity = 1 })) p.equipment j in
          let parts : of_item e.item_id e.quantity j
              ≡ of_item e.item_id 1 j + of_item e.item_id (e.quantity - 1) j =
            ground arith in
          omega (arith, gone, back, on, parts))

moved_quantity_le : (n : ℕ) (r : Option ℤ) → 1 ≤ n → moved_quantity n r ≤ n
unfolding moved_quantity
moved_quantity_le n none h = omega arith
moved_quantity_le n (some (pos m)) h = omega arith
moved_quantity_le n (some (negsuc m)) h = omega arith

take_out-count :
    (entry_id quantity : ℕ) (e : InventoryEntry) (source : List InventoryEntry) (j : ℕ)
    → find (has_id entry_id) source ≡ some e
    → quantity ≤ e.quantity
    → count_in (take_out e quantity source) j + of_item e.item_id quantity j ≡ count_in source j
unfolding take_out
take_out-count entry_id quantity e source j found le =
    let id : e.entry_id ≡ entry_id =
      (==_iff e.entry_id entry_id).0 (find-holds (has_id entry_id) source e found) in
    elim (Bool-cases (e.quantity == quantity)) [
      | inl whole ↦
          let all : e.quantity ≡ quantity = (==_iff e.quantity quantity).0 whole in
          let gone = count_in-remove_first (has_id entry_id) source e j found in
          rw (whole, id, ← all) gone
      | inr part ↦
          let left = count_in-change_first (has_id entry_id) (λ n. n - quantity) source e j found in
          let parts : of_item e.item_id e.quantity j
              ≡ of_item e.item_id (e.quantity - quantity) j + of_item e.item_id quantity j =
            ground arith in
          rw (part, id) (omega (arith, left, parts))
    ]

-- What leaves the source arrives in the target.
abbrev pub Moves : List InventoryEntry → Bag → List InventoryEntry × Bag → Type 0
Moves source target (source', target') =
    (j : ℕ)
    → count_in source' j + count_in target'.entries j
      ≡ count_in source j + count_in target.entries j

abbrev pub HasUnits : InventoryEntry → Type 0
HasUnits e = 1 ≤ e.quantity

move_between-Moves :
    (supply : Supply) (entry_id : ℕ) (requested : Option ℤ) (source : List InventoryEntry)
    (target : Bag)
    → All HasUnits source
    → After (Moves source target) (move_between supply entry_id requested source target)
unfolding move_between
move_between-Moves supply entry_id requested source target units =
    After-bind (λ e. find (has_id entry_id) source ≡ some e) (Moves source target)
      (After-or_refuse (find (has_id entry_id) source) item_not_owned)
      λ e found.
        After-bind (Adds target e.item_id (moved_quantity e.quantity requested))
          (Moves source target) (add_item-Adds supply _ _ _ target)
          λ filled adds. After-done (Moves source target) _ λ j.
            let le =
              moved_quantity_le e.quantity requested (find-some HasUnits _ source e units found) in
            let out = take_out-count entry_id _ e source j found le in
            let add = adds j in omega (arith, out, add)

-- Where every entry holds at least one unit, a player who moves an entry, or a part of one, to the
-- storage or back holds what it held, of every item.
pub move-KeepsHeld :
    (supply : Supply) (entry_id : ℕ) (to_storage : Bool) (requested : Option ℤ) (w : Working)
    → All HasUnits w.profile.inventory
    → All HasUnits w.profile.storage
    → After (λ w'. KeepsHeld w.profile w'.profile) (move supply entry_id to_storage requested w)
unfolding move
move-KeepsHeld supply entry_id true requested w inv sto =
    After-bind _ (λ w'. KeepsHeld w.profile w'.profile)
      (move_between-Moves supply entry_id requested w.profile.inventory _ inv)
      λ (source, target) m.
        After-done (λ w'. KeepsHeld w.profile w'.profile) _
          λ j. let same = m j in omega (arith, same)
move-KeepsHeld supply entry_id false requested w inv sto =
    After-bind _ (λ w'. KeepsHeld w.profile w'.profile)
      (move_between-Moves supply entry_id requested w.profile.storage _ sto)
      λ (source, target) m.
        After-done (λ w'. KeepsHeld w.profile w'.profile) _
          λ j. let same = m j in omega (arith, same)
