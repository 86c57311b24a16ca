-- ===== src/Players/Consumed.antt =====
-- consumeByItemId and what rests on it in server/players/PlayerStateService.ts: what is used up.
use vaelmour_game.Prelude.{
  ℕ, ◌+◌, ◌-◌, ◌≤◌, ◌≡◌, refl, true, false, not, ◌||◌, none, some, List, [], ◌∷◌, leb, ◌==◌, find,
  arith, Bool-cases, inl, inr, ==_iff, min, All, All-map,
}
use vaelmour_game.Data.{InventoryEntry}
use vaelmour_game.Players.Bag.{has_id, count_in, remove_quantity, consume_from, consume_by_item_id}
use vaelmour_game.Players.Counts.{of_item, count_in-cons}

-- No two entries have the same identifier.
abbrev pub Distinct : List InventoryEntry → Type 0
Distinct [] = Unit
Distinct (e ∷ es) = (find (has_id e.entry_id) es ≡ none) × Distinct es

remove_quantity-count :
    (es : List InventoryEntry) (entry_id quantity : ℕ) (e : InventoryEntry) (j : ℕ)
    → find (has_id entry_id) es ≡ some e
    → quantity ≤ e.quantity
    → count_in (remove_quantity es entry_id quantity) j + of_item e.item_id quantity j
      ≡ count_in es j
unfolding remove_quantity
remove_quantity-count [] entry_id quantity e j h le = cc
remove_quantity-count (x ∷ xs) entry_id quantity e j h le =
    elim (Bool-cases (x.entry_id == entry_id)) [
      | inl hit ↦
          let found : some x ≡ some e = rw hit at h in
          let eq : x ≡ e = cc in
          let old = count_in-cons e xs j in
          rw (hit, eq)
            (elim (Bool-cases (leb e.quantity quantity)) [
              | inl whole ↦
                  let all : e.quantity ≡ quantity = ground arith in
                  rw (whole, ← all) (omega (arith, old))
              | inr part ↦
                  let new = count_in-cons (record e { quantity = e.quantity - quantity }) xs j in
                  let parts : of_item e.item_id e.quantity j
                      ≡ of_item e.item_id (e.quantity - quantity) j + of_item e.item_id quantity j =
                    ground arith in
                  rw part (omega (arith, old, new, parts))
            ])
      | inr miss ↦
          let rest = remove_quantity-count xs entry_id quantity e j (rw miss at h) le in
          let old = count_in-cons x xs j in
          let new = count_in-cons x (remove_quantity xs entry_id quantity) j in
          rw miss (omega (arith, rest, old, new))
    ]

-- Another identifier finds what it found.
pub find-remove_quantity :
    (es : List InventoryEntry) (entry_id quantity i : ℕ)
    → (i == entry_id) ≡ false
    → find (has_id i) (remove_quantity es entry_id quantity) ≡ find (has_id i) es
unfolding remove_quantity
find-remove_quantity [] entry_id quantity i other = refl
find-remove_quantity (x ∷ xs) entry_id quantity i other =
    let rest = find-remove_quantity xs entry_id quantity i other in ground (arith, rest)

-- An identifier that finds nothing still finds nothing.
none-remove_quantity :
    (es : List InventoryEntry) (entry_id quantity i : ℕ)
    → find (has_id i) es ≡ none
    → find (has_id i) (remove_quantity es entry_id quantity) ≡ none
unfolding remove_quantity
none-remove_quantity [] entry_id quantity i h = refl
none-remove_quantity (x ∷ xs) entry_id quantity i h =
    ground (arith, none-remove_quantity xs entry_id quantity i)

remove_quantity-Distinct :
    (es : List InventoryEntry) (entry_id quantity : ℕ)
    → Distinct es
    → Distinct (remove_quantity es entry_id quantity)
unfolding remove_quantity
remove_quantity-Distinct [] entry_id quantity h = tt
remove_quantity-Distinct (x ∷ xs) entry_id quantity h = elim (Bool-cases (x.entry_id == entry_id)) [
  | inl hit ↦ elim (Bool-cases (leb x.quantity quantity)) [
    | inl whole ↦ rw (hit, whole) h.1
    | inr part ↦ rw (hit, part) h
  ]
  | inr miss ↦ rw miss (
    none-remove_quantity xs entry_id quantity x.entry_id h.0,
    remove_quantity-Distinct xs entry_id quantity h.1,
  )
]

-- The entry stands in the list under its identifier.
abbrev pub Live : List InventoryEntry → InventoryEntry → Type 0
Live entries e = find (has_id e.entry_id) entries ≡ some e

Live-cons :
    (x : InventoryEntry) (xs : List InventoryEntry)
    → find (has_id x.entry_id) xs ≡ none
    → (e : InventoryEntry) → Live xs e
    → Live (x ∷ xs) e
Live-cons x xs fresh e h = elim (Bool-cases (x.entry_id == e.entry_id)) [
  | inl same ↦
      let ids : x.entry_id ≡ e.entry_id = (==_iff x.entry_id e.entry_id).0 same in
      let miss : find (has_id e.entry_id) xs ≡ none = rw ids at fresh in cc
  | inr other ↦ rw other h
]

Distinct-Live : (es : List InventoryEntry) → Distinct es → All (Live es) es
Distinct-Live [] h = tt
Distinct-Live (x ∷ xs) h =
    let own : (x.entry_id == x.entry_id) ≡ true = (==_iff x.entry_id x.entry_id).1 refl in
    (rw own refl, All-map (Live-cons x xs h.0) xs (Distinct-Live xs h.1))

-- The entries that are still to come are not touched.
Live-remove_quantity :
    (e : InventoryEntry) (es entries : List InventoryEntry) (quantity : ℕ)
    → find (has_id e.entry_id) es ≡ none
    → All (Live entries) es
    → All (Live (remove_quantity entries e.entry_id quantity)) es
Live-remove_quantity e [] entries quantity fresh h = tt
Live-remove_quantity e (x ∷ xs) entries quantity fresh h =
    elim (Bool-cases (x.entry_id == e.entry_id)) [
      | inl same ↦ cc (rw same at fresh)
      | inr other ↦ (
        rw (find-remove_quantity entries e.entry_id quantity x.entry_id other) h.0,
        Live-remove_quantity e xs entries quantity (rw other at fresh) h.1,
      )
    ]

count_in-nil : (j : ℕ) → count_in [] j ≡ 0
unfolding count_in
count_in-nil j = refl

consume_from-count :
    (es : List InventoryEntry) (item_id remaining : ℕ) (entries : List InventoryEntry) (j : ℕ)
    → Distinct es
    → All (Live entries) es
    → remaining ≤ count_in es item_id
    → count_in (consume_from es item_id remaining entries) j + of_item item_id remaining j
      ≡ count_in entries j
unfolding consume_from
consume_from-count [] item_id remaining entries j d l le =
    let nothing = count_in-nil item_id in ground (arith, nothing)
consume_from-count (e ∷ es) item_id remaining entries j d l le =
    elim (Bool-cases (not (e.item_id == item_id) || leb remaining 0)) [
      | inl skip ↦
          let enough : remaining ≤ count_in es item_id =
            (let all = count_in-cons e es item_id in ground arith) in
          rw (skip, consume_from) (consume_from-count es item_id remaining entries j d.1 l.1 enough)
      | inr take ↦
          let used = min e.quantity remaining in
          let same : e.item_id ≡ item_id = ground arith in
          let enough : remaining - used ≤ count_in es item_id =
            (let all = count_in-cons e es item_id in ground arith) in
          let out = remove_quantity-count entries e.entry_id used e j l.0 (omega arith) in
          let rest =
            consume_from-count es item_id (remaining - used)
              (remove_quantity entries e.entry_id used) j d.1
              (Live-remove_quantity e es entries used d.0 l.1) enough in
          let parts : of_item item_id remaining j
              ≡ of_item e.item_id used j + of_item item_id (remaining - used) j =
            rw same (ground arith) in
          rw (take, consume_from) (omega (arith, out, rest, parts))
    ]

consume_from-Distinct :
    (es : List InventoryEntry) (item_id remaining : ℕ) (entries : List InventoryEntry)
    → Distinct entries
    → Distinct (consume_from es item_id remaining entries)
unfolding consume_from
consume_from-Distinct [] item_id remaining entries d = d
consume_from-Distinct (e ∷ es) item_id remaining entries d =
    elim (Bool-cases (not (e.item_id == item_id) || leb remaining 0)) [
      | inl skip ↦ rw (skip, consume_from) (consume_from-Distinct es item_id remaining entries d)
      | inr take ↦
          rw (take, consume_from)
            (consume_from-Distinct es item_id _ _
              (remove_quantity-Distinct entries e.entry_id (min e.quantity remaining) d))
    ]

-- Where there is enough of an item, just so much of it is used up, and nothing else.
pub consume_by_item_id-count :
    (es : List InventoryEntry) (item_id quantity : ℕ) (j : ℕ)
    → Distinct es
    → quantity ≤ count_in es item_id
    → count_in (consume_by_item_id es item_id quantity) j + of_item item_id quantity j
      ≡ count_in es j
unfolding consume_by_item_id
consume_by_item_id-count es item_id quantity j d le =
    consume_from-count es item_id quantity es j d (Distinct-Live es d) le

pub consume_by_item_id-Distinct :
    (es : List InventoryEntry) (item_id quantity : ℕ)
    → Distinct es
    → Distinct (consume_by_item_id es item_id quantity)
unfolding consume_by_item_id
consume_by_item_id-Distinct es item_id quantity d = consume_from-Distinct es item_id quantity es d
