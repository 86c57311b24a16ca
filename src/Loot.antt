-- ===== src/Loot.antt =====
-- server/loot/professionLoot.ts: what an encounter drops, and for whom.
pub mod Living
mod Tests
use vaelmour_game.Prelude.{
  ℕ, suc, ◌+◌, Bool, true, false, Option, none, some, List, [], ◌∷◌, ◌++◌, keep, length,
  if◌then◌else◌,
}
use vaelmour_game.Prelude.Dict.{Dict, lookup, insert}
use vaelmour_game.Data.{CharacterClass, Profession, PersonalLoot}
use vaelmour_game.Combat.Types.{Float, EnemyKind}
use vaelmour_game.Combat.Engine.{nth, or_else}
use vaelmour_game.Combat.AutoPotion.{hundredths}

pub record LootParticipant : Type 0 where
  pub id : ℕ
  pub class_id : CharacterClass
  pub alive : Bool

-- `options` with its defaults: the chances, and the tables for the tier that it names.
pub record LootOptions (F : Type 0) : Type 0 where
  pub combat_class_chance : F
  pub correct_profession_chance : F
  pub recipe_chance : EnemyKind → F
  pub resources : Profession → List ℕ
  pub recipes : Profession → List ℕ
  pub generic_resources : List ℕ

-- What each participant gets and the rolls of each profession, with how many answers of `random` have
-- been used.
pub record LootRolls : Type 0 where
  pub personal : Dict PersonalLoot
  pub profession_pool_rolls : Profession → ℕ
  pub recipe_rolls : Profession → ℕ
  pub random : ℕ

abbrev pub professions : List Profession
professions = Profession.blacksmith ∷ Profession.alchemist ∷ Profession.jeweler ∷ []

-- `isProfessionClass`, with the profession
unfoldable pub profession_of : CharacterClass → Option Profession
profession_of CharacterClass.blacksmith = some Profession.blacksmith
profession_of CharacterClass.alchemist = some Profession.alchemist
profession_of CharacterClass.jeweler = some Profession.jeweler
profession_of _ = none

-- `participant.classId === profession`
unfoldable pub is_of_trade : Profession → CharacterClass → Bool
is_of_trade Profession.blacksmith CharacterClass.blacksmith = true
is_of_trade Profession.alchemist CharacterClass.alchemist = true
is_of_trade Profession.jeweler CharacterClass.jeweler = true
is_of_trade _ _ = false

unfoldable pub is_profession : Profession → Profession → Bool
is_profession Profession.blacksmith Profession.blacksmith = true
is_profession Profession.alchemist Profession.alchemist = true
is_profession Profession.jeweler Profession.jeweler = true
is_profession _ _ = false

abbrev pub add_roll : Profession → (Profession → ℕ) → Profession → ℕ
add_roll profession rolls p = if is_profession profession p then suc (rolls p) else rolls p

-- `professionPoolRolls[profession] += 1`
abbrev pub count_pool : Profession → LootRolls → LootRolls
count_pool profession r = record r {
  profession_pool_rolls = add_roll profession r.profession_pool_rolls;
}

-- `recipeRolls[profession] += 1`
abbrev pub count_recipe : Profession → LootRolls → LootRolls
count_recipe profession r = record r { recipe_rolls = add_roll profession r.recipe_rolls }

abbrev pub no_loot : PersonalLoot
no_loot = record { resources = []; recipe_ids = [] }

-- `resources[id] = (resources[id] ?? 0) + quantity`
unfoldable pub add_resource : ℕ → ℕ → PersonalLoot → PersonalLoot
add_resource item_id quantity loot = record loot {
  resources = insert item_id (or_else (lookup item_id loot.resources) 0 + quantity) loot.resources;
}

unfoldable pub add_recipe : ℕ → PersonalLoot → PersonalLoot
add_recipe recipe_id loot = record loot { recipe_ids = loot.recipe_ids ++ recipe_id ∷ [] }

-- A write to `personal[id]`
unfoldable pub credit : ℕ → (PersonalLoot → PersonalLoot) → LootRolls → LootRolls
credit id f r = elim (lookup id r.personal) [
  | none ↦ r
  | some loot ↦ record r { personal = insert id (f loot) r.personal }
]

-- An item that is not there is not given. `choose` finds a recipient, since `random` is below 1.
abbrev pub award :
    Option LootParticipant → Option ℕ → (ℕ → PersonalLoot → PersonalLoot) → LootRolls → LootRolls
award none item f r = r
award (some p) none f r = r
award (some p) (some item) f r = credit p.id (f item) r

abbrev pub boss_quantity : EnemyKind → ℕ
boss_quantity kind = elim kind [ EnemyKind.boss ↦ 2 | _ ↦ 1 ]

module _ (fl : Float) (options : LootOptions fl.F) where
  open fl use {F, of_ℕ, mul, lt, floor}

  -- `random() < chance`
  abbrev pub rolls_under : F → ℕ → Bool
  rolls_under chance n = lt (fl.random n) chance

  -- `items[Math.floor(random() * items.length)]`, at one answer
  unfoldable pub choose : {A : Type 0} → List A → ℕ → Option A
  choose items n = nth (floor (mul (fl.random n) (of_ℕ (length items)))) items

  -- `roleIndex`, and the answers used then
  unfoldable pub role_index : EnemyKind → ℕ → ℕ × ℕ
  role_index EnemyKind.boss n =
      (elim (rolls_under (hundredths fl 65) n) [ true ↦ 2 | false ↦ 1 ], suc n)
  role_index EnemyKind.elite n =
      (elim (rolls_under (hundredths fl 45) n) [ true ↦ 1 | false ↦ 0 ], suc n)
  role_index EnemyKind.mob n = (0, n)

  -- `resources[roleIndex]?.id ?? resources[0]?.id`
  abbrev pub of_role : ℕ → List ℕ → Option ℕ
  of_role index items = elim (nth index items) [ none ↦ nth 0 items | some id ↦ some id ]

  unfoldable pub resource_roll :
      EnemyKind → Profession → List LootParticipant → LootRolls → LootRolls
  resource_roll kind profession eligible r =
      let after = record r { random = suc r.random } in
      elim (rolls_under options.correct_profession_chance r.random) [
        | false ↦ after
        | true ↦
            let recipient = choose eligible after.random in
            let (index, n) = role_index kind (suc after.random) in
            award recipient (of_role index (options.resources profession))
              (λ id. add_resource id (boss_quantity kind)) (record r { random = n })
      ]

  unfoldable pub recipe_roll : EnemyKind → Profession → List LootParticipant → LootRolls → LootRolls
  recipe_roll kind profession eligible r =
      let after = record r { random = suc r.random } in
      elim (rolls_under (options.recipe_chance kind) r.random) [
        | false ↦ after
        | true ↦
            let recipient = choose eligible after.random in
            let recipe_id = choose (options.recipes profession) (suc after.random) in
            award recipient recipe_id add_recipe (record r { random = suc (suc after.random) })
      ]

  -- One round of the loop over `PROFESSIONS`.
  unfoldable pub profession_rolls :
      EnemyKind → List LootParticipant → Profession → LootRolls → LootRolls
  profession_rolls kind alive profession r =
      let eligible = keep (λ p. is_of_trade profession p.class_id) alive in
      elim eligible [
        | [] ↦ r
        | p ∷ ps ↦ recipe_roll kind profession (p ∷ ps) (
            count_recipe profession
              (resource_roll kind profession (p ∷ ps) (count_pool profession r)))
      ]

  unfoldable pub all_professions :
      EnemyKind → List LootParticipant → List Profession → LootRolls → LootRolls
  all_professions kind alive [] r = r
  all_professions kind alive (p ∷ ps) r =
      all_professions kind alive ps (profession_rolls kind alive p r)

  -- The loop over the living of the classes without a profession.
  unfoldable pub generic_rolls : List LootParticipant → LootRolls → LootRolls
  generic_rolls [] r = r
  generic_rolls (p ∷ ps) r =
      let after = record r { random = suc r.random } in
      elim (rolls_under options.combat_class_chance r.random) [
        | false ↦ generic_rolls ps after
        | true ↦ generic_rolls ps (
            award (some p) (choose options.generic_resources after.random) (λ id. add_resource id 1)
              (record r { random = suc after.random }))
      ]

  abbrev pub is_fighter : LootParticipant → Bool
  is_fighter p = elim (profession_of p.class_id) [ none ↦ true | some _ ↦ false ]

  -- `Object.fromEntries`: one entry for each identifier
  unfoldable pub no_drops : List LootParticipant → Dict PersonalLoot → Dict PersonalLoot
  no_drops [] d = d
  no_drops (p ∷ ps) d = no_drops ps (insert p.id no_loot d)

  unfoldable pub generate_profession_loot : List LootParticipant → EnemyKind → ℕ → LootRolls
  generate_profession_loot participants kind n =
      let alive = keep (λ p. p.alive) participants in
      generic_rolls (keep is_fighter alive) (
        all_professions kind alive professions (record {
          personal = no_drops participants [];
          profession_pool_rolls = λ p. 0;
          recipe_rolls = λ p. 0;
          random = n;
        }))
