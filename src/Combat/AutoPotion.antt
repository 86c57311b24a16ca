-- ===== src/Combat/AutoPotion.antt =====
-- shared/game-data/autoBattle.ts: the potion that Auto Battle drinks.
use vaelmour_game.Prelude.{
  ℕ, ◌-◌, Bool, true, false, ◌&&◌, ◌||◌, Option, none, some, List, [], ◌∷◌, map, ltb, leb, ◌==◌,
  find, keep, sort_by,
}
use vaelmour_game.Combat.Types.{Float}
use vaelmour_game.Combat.Engine.{or_else}

pub record AutoPotionOption (F : Type 0) : Type 0 where
  pub item_id : ℕ
  pub quantity : ℕ
  pub heal_percent : F

pub record AutoPotionDecision (F : Type 0) : Type 0 where
  pub potion_item_id : ℕ
  pub heal_percent : F
  pub expected_heal : ℕ
  pub expected_overheal : ℕ

pub record AutoPotionInput (F : Type 0) : Type 0 where
  pub current_hp : ℕ
  pub max_hp : ℕ
  pub potion_cooldown : ℕ
  pub content_tier : ℕ
  pub potions : List (AutoPotionOption F)

-- `available.at(-1)`
abbrev pub last {ℓ} : {A : Type ℓ} → A → List A → A
last x [] = x
last x (y ∷ ys) = last y ys

-- A decimal of two places: the quotient of doubles is the double nearest to it.
abbrev pub hundredths : (fl : Float) → ℕ → fl.F
hundredths fl n = fl.div (fl.of_ℕ n) (fl.of_ℕ 100)

-- `localeCompare` of item identifiers is a parameter.
module _ (fl : Float) (locale_before : ℕ → ℕ → Bool) where
  open fl use {F, of_ℕ, mul, div, lt, le, floor}

  -- The tiers are 1 to 6.
  unfoldable pub auto_potion_threshold_by_tier : ℕ → F
  auto_potion_threshold_by_tier tier = elim (tier == 1) [
    | true ↦ hundredths fl 28
    | false ↦ elim (tier == 2) [
      | true ↦ hundredths fl 24
      | false ↦ elim (leb tier 4) [
        | true ↦ hundredths fl 21
        | false ↦ elim (tier == 5) [ true ↦ hundredths fl 20 | false ↦ hundredths fl 18 ]
      ]
    ]
  ]

  abbrev pub is_available : AutoPotionOption F → Bool
  is_available p = ltb 0 p.quantity && lt (of_ℕ 0) p.heal_percent

  abbrev pub weigh : ℕ → ℕ → AutoPotionOption F → AutoPotionDecision F
  weigh max_hp missing_hp p =
      let expected_heal = floor (mul (of_ℕ max_hp) p.heal_percent) in
      record {
        potion_item_id = p.item_id;
        heal_percent = p.heal_percent;
        expected_heal = expected_heal;
        expected_overheal = expected_heal - missing_hp;
      }

  abbrev pub weaker : AutoPotionDecision F → AutoPotionDecision F → Bool
  weaker a b =
      ltb a.expected_heal b.expected_heal
      || ((a.expected_heal == b.expected_heal) && locale_before a.potion_item_id b.potion_item_id)

  -- The ratio of the points that are left.
  abbrev pub hp_ratio : AutoPotionInput F → F
  hp_ratio input = div (of_ℕ input.current_hp) (of_ℕ input.max_hp)

  abbrev pub covers : ℕ → AutoPotionDecision F → Bool
  covers missing_hp p = le (mul (of_ℕ missing_hp) (hundredths fl 69)) (of_ℕ p.expected_heal)

  -- `adequate ?? available.at(-1)`, where a critical member takes the strongest
  unfoldable pub choose_potion :
      AutoPotionInput F → List (AutoPotionDecision F) → Option (AutoPotionDecision F)
  choose_potion input [] = none
  choose_potion input (p ∷ ps) =
      let strongest = last p ps in
      elim (le (hp_ratio input) (hundredths fl 15)) [
        | true ↦ some strongest
        | false ↦
            some (or_else (find (covers (input.max_hp - input.current_hp)) (p ∷ ps)) strongest)
      ]

  abbrev pub is_idle : AutoPotionInput F → Bool
  is_idle input =
      leb input.max_hp 0
      || leb input.current_hp 0
      || ltb 0 input.potion_cooldown
      || lt (auto_potion_threshold_by_tier input.content_tier) (hp_ratio input)

  unfoldable pub select_auto_potion : AutoPotionInput F → Option (AutoPotionDecision F)
  select_auto_potion input = elim (is_idle input) [
    | true ↦ none
    | false ↦ choose_potion input (
        sort_by weaker (
          map (weigh input.max_hp (input.max_hp - input.current_hp))
            (keep is_available input.potions)))
  ]
