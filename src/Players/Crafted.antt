-- ===== src/Players/Crafted.antt =====
-- craft and consumeItem of server/players/PlayerStateService.ts use up what they ask for.
use vaelmour_game.Prelude.{
  ℕ, ◌+◌, ◌≤◌, ◌≡◌, refl, false, Option, none, some, List, [], ◌∷◌, ltb, ◌==◌, arith, Bool-cases,
  inl, inr, All,
}
use vaelmour_game.Prelude.Dict.{Dict, lookup}
use vaelmour_game.Data.{InventoryEntry, RecipeDefinition, StoredPlayerProfile}
use vaelmour_game.Players.Attempt.{recipe_not_learned, not_enough_resources, not_enough_items}
use vaelmour_game.Players.Bag.{Supply, count_in, consume_by_item_id}
use vaelmour_game.Players.Inventory.{Working}
use vaelmour_game.Players.Items.{give, lacks, consume_all, known_recipe, craft, consume_item}
use vaelmour_game.Players.Counts.{
  After, After-bind, After-done, After-map, After-or_refuse, After-refuse_if, After-any, of_item,
}
use vaelmour_game.Players.Held.{add_item-Adds}
use vaelmour_game.Players.Consumed.{Distinct, consume_by_item_id-count, consume_by_item_id-Distinct}

-- The units of an item that the requirements name.
abbrev pub required : Dict ℕ → ℕ → ℕ
required [] j = 0
required ((item_id, quantity) ∷ rs) j = of_item item_id quantity j + required rs j

-- An object has each of its keys once.
abbrev pub HasKeysOnce : Dict ℕ → Type 0
HasKeysOnce [] = Unit
HasKeysOnce ((k, _) ∷ rs) = (lookup k rs ≡ none) × HasKeysOnce rs

-- There is enough of every item that the requirements name.
abbrev pub Suffices : List InventoryEntry → Dict ℕ → Type 0
Suffices es rs = All (λ (r : ℕ × ℕ). r.1 ≤ count_in es r.0) rs

lacks-Suffices : (es : List InventoryEntry) (rs : Dict ℕ) → lacks es rs ≡ false → Suffices es rs
lacks-Suffices es [] h = tt
lacks-Suffices es ((item_id, quantity) ∷ rs) h = (ground arith, lacks-Suffices es rs (ground arith))

-- Using up one item leaves the others.
consume_by_item_id-Suffices :
    (es : List InventoryEntry) (item_id quantity : ℕ) (rs : Dict ℕ)
    → Distinct es
    → quantity ≤ count_in es item_id
    → lookup item_id rs ≡ none
    → Suffices es rs
    → Suffices (consume_by_item_id es item_id quantity) rs
consume_by_item_id-Suffices es item_id quantity [] d le fresh h = tt
consume_by_item_id-Suffices es item_id quantity ((i, q) ∷ rs) d le fresh h =
    elim (Bool-cases (item_id == i)) [
      | inl same ↦ cc (rw same at fresh)
      | inr other ↦
          let kept = consume_by_item_id-count es item_id quantity i d le in
          let none_used : of_item item_id quantity i ≡ 0 = rw other refl in
          (
            omega (arith, kept, none_used, h.0),
            consume_by_item_id-Suffices es item_id quantity rs d le (rw other at fresh) h.1,
          )
    ]

consume_all-count :
    (rs : Dict ℕ) (es : List InventoryEntry) (j : ℕ)
    → HasKeysOnce rs
    → Distinct es
    → Suffices es rs
    → count_in (consume_all rs es) j + required rs j ≡ count_in es j
unfolding consume_all
consume_all-count [] es j once d h = omega arith
consume_all-count ((item_id, quantity) ∷ rs) es j once d h =
    let one = consume_by_item_id-count es item_id quantity j d h.0 in
    let rest =
      consume_all-count rs (consume_by_item_id es item_id quantity) j once.1
        (consume_by_item_id-Distinct es item_id quantity d)
        (consume_by_item_id-Suffices es item_id quantity rs d h.0 once.0 h.1) in
    omega (arith, one, rest)

give-Adds :
    (supply : Supply) (item_id quantity : ℕ) (w : Working)
    → After
        (λ w'.
          (j : ℕ)
          → count_in w'.profile.inventory j
            ≡ count_in w.profile.inventory j + of_item item_id quantity j)
        (give supply item_id quantity w)
unfolding give
give-Adds supply item_id quantity w =
    After-bind _ _ (add_item-Adds supply item_id quantity none _) λ bag adds. After-done _ _ adds

pub craft-Crafted :
    (supply : Supply) (recipes : ℕ → Option RecipeDefinition) (recipe_id : ℕ) (w : Working)
    (r : RecipeDefinition)
    → Distinct w.profile.inventory
    → known_recipe recipes recipe_id w.profile ≡ some r
    → HasKeysOnce r.requirements
    → After
        (λ w'.
          (j : ℕ)
          → count_in w'.profile.inventory j + required r.requirements j
            ≡ count_in w.profile.inventory j + of_item r.output_item_id r.output_quantity j)
        (craft supply recipes recipe_id w)
unfolding craft
craft-Crafted supply recipes recipe_id w r d known once =
    After-bind (λ x. known_recipe recipes recipe_id w.profile ≡ some x) Goal
      (After-or_refuse (known_recipe recipes recipe_id w.profile) recipe_not_learned)
      λ x found.
        let both : some x ≡ some r = cc in
        let same : x ≡ r = cc in
        rw same (
          After-bind _ Goal (After-any _) λ _ _.
            After-bind _ Goal
              (After-refuse_if (lacks w.profile.inventory r.requirements) not_enough_resources)
              λ _ stocked.
                After-map Goal
                  (λ w' adds. accounts w' (lacks-Suffices _ r.requirements stocked) adds)
                  (give-Adds supply r.output_item_id r.output_quantity _))
  where
    Goal : Working → Type 0
    Goal w' =
        (j : ℕ)
        → count_in w'.profile.inventory j + required r.requirements j
          ≡ count_in w.profile.inventory j + of_item r.output_item_id r.output_quantity j

    accounts :
        (w' : Working)
        → Suffices w.profile.inventory r.requirements
        → ((j : ℕ)
            → count_in w'.profile.inventory j
              ≡ count_in (consume_all r.requirements w.profile.inventory) j
                + of_item r.output_item_id r.output_quantity j)
        → Goal w'
    accounts w' enough adds j =
        let used = consume_all-count r.requirements w.profile.inventory j once d enough in
        let add = adds j in omega (arith, add, used)

-- Where the entries have different identifiers, a use of an item takes just so many units of it, and
-- nothing else.
pub consume_item-Consumed :
    (item_id quantity : ℕ) (p : StoredPlayerProfile)
    → Distinct p.inventory
    → After
        (λ p'.
          (j : ℕ) → count_in p'.inventory j + of_item item_id quantity j ≡ count_in p.inventory j)
        (consume_item item_id quantity p)
unfolding consume_item
consume_item-Consumed item_id quantity p d =
    After-bind _ _ (After-refuse_if (ltb (count_in p.inventory item_id) quantity) not_enough_items)
      λ _ stocked.
        After-done _ _
          (λ j. consume_by_item_id-count p.inventory item_id quantity j d (ground arith))
