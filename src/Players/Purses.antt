-- ===== src/Players/Purses.antt =====
-- What server/players/PlayerStateService.ts leaves of the coins of a player.
use vaelmour_game.Prelude.{ℕ, zero, suc, ◌≡◌, refl, ◌∙◌, List, [], ◌∷◌, ltb, Bool-cases, inl, inr}
use vaelmour_game.Prelude.Dict.{Dict}
use vaelmour_game.Data.{PersonalLoot, StoredPlayerProfile}
use vaelmour_game.Players.Attempt.{Attempt, map_done}
use vaelmour_game.Players.Bag.{Supply}
use vaelmour_game.Players.Inventory.{Working}
use vaelmour_game.Players.Items.{give, consume_item, commit_resources, commit_recipes, commit_loot}
use vaelmour_game.Players.Rifts.{RiftDefinition, complete_rift_floor}
use vaelmour_game.Players.Counts.{
  After, After-bind, After-map, After-done, After-any, After-refuse_if,
}

pub record SamePurse (p q : StoredPlayerProfile) : Type 0 where
  pub coins : q.coins ≡ p.coins
  pub reserved : q.reserved_coins ≡ p.reserved_coins

SamePurse-refl : (p : StoredPlayerProfile) → SamePurse p p
SamePurse-refl p = record { coins = refl; reserved = refl }

SamePurse-trans : (p q r : StoredPlayerProfile) → SamePurse p q → SamePurse q r → SamePurse p r
SamePurse-trans p q r h k = record { coins = k.coins ∙ h.coins; reserved = k.reserved ∙ h.reserved }

-- The result of a helper, and what it leaves of the purse.
abbrev pub FromPurse : StoredPlayerProfile → Working → Type 0
FromPurse p w = SamePurse p w.profile

pub After-map_done :
    {A B : Type 0} (P : A → Type 0) (Q : B → Type 0) (f : A → B) {m : Attempt A}
    → After P m
    → ((a : A) → P a → Q (f a))
    → After Q (map_done f m)
After-map_done P Q f h k = After-bind P Q h (λ a p. After-done Q (f a) (k a p))

give-SamePurse :
    (supply : Supply) (item quantity : ℕ) (w : Working)
    → After (FromPurse w.profile) (give supply item quantity w)
unfolding give
give-SamePurse supply item quantity w =
    After-bind _ _ (After-any _)
      (λ bag _. After-done (FromPurse w.profile) _ (record { coins = refl; reserved = refl }))

pub consume_item-SamePurse :
    (item quantity : ℕ) (p : StoredPlayerProfile)
    → After (SamePurse p) (consume_item item quantity p)
unfolding consume_item
consume_item-SamePurse item quantity p =
    After-bind _ _ (After-refuse_if _ _)
      (λ _ _. After-done (SamePurse p) _ (record { coins = refl; reserved = refl }))

pub complete_rift_floor-SamePurse :
    (rifts : List RiftDefinition) (id floor : ℕ) (p : StoredPlayerProfile)
    → After (SamePurse p) (complete_rift_floor rifts id floor p)
unfolding complete_rift_floor
complete_rift_floor-SamePurse rifts id floor p = After-bind _ _ (After-any _) λ definition _.
    After-bind _ _ (After-any _) λ _ _.
      After-bind _ _ (After-any _)
        λ _ _. After-done (SamePurse p) _ (record { coins = refl; reserved = refl })

module _ (supply : Supply) (retained : ℕ → ℕ) where
  -- Between a pair of a working profile and what is kept so far.
  abbrev Between : StoredPlayerProfile → Working × PersonalLoot → Type 0
  Between p r = SamePurse p r.0.profile

  commit_resources-SamePurse :
      (rs : Dict ℕ) (w : Working) (loot : PersonalLoot)
      → After (Between w.profile) (commit_resources supply retained rs (w, loot))
  unfolding commit_resources
  commit_resources-SamePurse [] w loot = After-done _ _ (SamePurse-refl w.profile)
  commit_resources-SamePurse ((item, n) ∷ rs) w loot = elim (Bool-cases (ltb 0 (retained n))) [
    | inl some_kept ↦
        rw (some_kept, commit_resources)
          (After-bind (FromPurse w.profile) (Between w.profile)
            (give-SamePurse supply item (retained n) w)
            (λ given same.
              After-map (Between w.profile)
                (λ r rest. SamePurse-trans w.profile given.profile r.0.profile same rest)
                (commit_resources-SamePurse rs given _)))
    | inr none_kept ↦ rw (none_kept, commit_resources) (commit_resources-SamePurse rs w loot)
  ]

  commit_recipes-SamePurse :
      (recipe_item : ℕ → ℕ) (count : ℕ) (ids : List ℕ) (w : Working) (loot : PersonalLoot)
      → After (Between w.profile) (commit_recipes supply retained recipe_item count ids (w, loot))
  unfolding commit_recipes
  commit_recipes-SamePurse recipe_item count [] w loot = After-done _ _ (SamePurse-refl w.profile)
  commit_recipes-SamePurse recipe_item zero (id ∷ ids) w loot =
      After-done _ _ (SamePurse-refl w.profile)
  commit_recipes-SamePurse recipe_item (suc count) (id ∷ ids) w loot =
      After-bind (FromPurse w.profile) (Between w.profile)
        (give-SamePurse supply (recipe_item id) 1 w)
        (λ given same.
          After-map (Between w.profile)
            (λ r rest. SamePurse-trans w.profile given.profile r.0.profile same rest)
            (commit_recipes-SamePurse recipe_item count ids given _))

pub commit_loot-SamePurse :
    (supply : Supply) (retained recipe_item : ℕ → ℕ) (loot : PersonalLoot) (w : Working)
    → After
        (λ (r : Working × PersonalLoot). SamePurse w.profile r.0.profile)
        (commit_loot supply retained recipe_item loot w)
unfolding commit_loot
commit_loot-SamePurse supply retained recipe_item loot w =
    After-bind _ _ (commit_resources-SamePurse supply retained loot.resources w _) λ kept same.
      After-map _ (λ r rest. SamePurse-trans w.profile kept.0.profile r.0.profile same rest)
        (commit_recipes-SamePurse supply retained recipe_item _ loot.recipe_ids kept.0 kept.1)
