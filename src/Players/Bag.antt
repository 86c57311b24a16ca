-- ===== src/Players/Bag.antt =====
-- The private helpers of server/players/PlayerStateService.ts on lists of entries.
use vaelmour_game.Prelude.{
  ℕ, suc, ◌+◌, ◌-◌, min, Bool, true, false, Option, none, some, List, [], ◌∷◌, ◌++◌, leb, ◌==◌,
  ◌||◌, not, if◌then◌else◌, find, change_first,
}
use vaelmour_game.Data.{InventoryEntry, ItemDefinition}
use vaelmour_game.Players.Attempt.{Attempt, done, refused, unknown_item}

-- `ITEM_CATALOG` and the answers of `randomUUID` are given to the service.
pub record Supply : Type 0 where
  pub catalog : ℕ → Option ItemDefinition
  pub random_uuid : ℕ → ℕ

-- A list of entries, with how many answers of `randomUUID` have been used.
pub record Bag : Type 0 where
  pub entries : List InventoryEntry
  pub draws : ℕ

abbrev pub has_item : ℕ → InventoryEntry → Bool
has_item item_id e = e.item_id == item_id

abbrev pub has_id : ℕ → InventoryEntry → Bool
has_id entry_id e = e.entry_id == entry_id

unfoldable pub count_in : List InventoryEntry → ℕ → ℕ
count_in [] item_id = 0
count_in (e ∷ es) item_id =
    let rest = count_in es item_id in if e.item_id == item_id then e.quantity + rest else rest

-- `entries[index].quantity -= quantity`, and the entry goes when nothing is left.
unfoldable pub remove_quantity : List InventoryEntry → ℕ → ℕ → List InventoryEntry
remove_quantity [] entry_id quantity = []
remove_quantity (e ∷ es) entry_id quantity =
    let rest = remove_quantity es entry_id quantity in
    if e.entry_id == entry_id
    then if leb e.quantity quantity then es else record e { quantity = e.quantity - quantity } ∷ es
    else e ∷ rest

-- The loop over the copy of the list. An entry that it has not reached is unchanged, also where
-- identifiers repeat, since `removeQuantity` takes the first entry of an identifier.
unfoldable pub consume_from :
    List InventoryEntry → ℕ → ℕ → List InventoryEntry → List InventoryEntry
consume_from [] item_id remaining entries = entries
consume_from (e ∷ es) item_id remaining entries =
    elim (not (e.item_id == item_id) || leb remaining 0) [
      | true ↦ consume_from es item_id remaining entries
      | false ↦
          let used = min e.quantity remaining in
          consume_from es item_id (remaining - used) (remove_quantity entries e.entry_id used)
    ]

unfoldable pub consume_by_item_id : List InventoryEntry → ℕ → ℕ → List InventoryEntry
consume_by_item_id entries item_id quantity = consume_from entries item_id quantity entries

module _ (supply : Supply) where
  -- `this.newEntry(itemId, quantity, preferredEntryId)`, pushed
  abbrev pub push_entry : ℕ → ℕ → Option ℕ → Bag → Bag
  push_entry item_id quantity none b = record {
    entries =
        b.entries
        ++ record { entry_id = supply.random_uuid b.draws; item_id = item_id; quantity = quantity }
          ∷ [];
    draws = suc b.draws;
  }
  push_entry item_id quantity (some id) b = record b {
    entries = b.entries ++ record { entry_id = id; item_id = item_id; quantity = quantity } ∷ [];
  }

  abbrev pub existing : ℕ → ItemDefinition → Bag → Option InventoryEntry
  existing item_id d b = if d.stackable then find (has_item item_id) b.entries else none

  abbrev pub add_defined : Option ItemDefinition → ℕ → ℕ → Option ℕ → Bag → Attempt Bag
  add_defined none item_id quantity preferred b = refused unknown_item
  add_defined (some d) item_id quantity preferred b = elim (existing item_id d b) [
    | some _ ↦ done (record b {
      entries =
          change_first (has_item item_id) (λ e. record e { quantity = e.quantity + quantity })
            b.entries;
    })
    | none ↦ done (push_entry item_id quantity preferred b)
  ]

  unfoldable pub add_item : ℕ → ℕ → Option ℕ → Bag → Attempt Bag
  add_item item_id quantity preferred b =
      add_defined (supply.catalog item_id) item_id quantity preferred b
