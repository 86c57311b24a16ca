-- ===== src/Combat/Tests.antt =====
-- A round on a concrete party, and the theorems of the engine at it.
use vaelmour_game.Prelude.{
  ℕ, sort_by, insert_by, ◌<◌, ◌≡◌, refl, true, false, none, some, List, [], ◌∷◌, ltb,
}
use vaelmour_game.Data.{CharacterClass}
use vaelmour_game.Combat.Thousandths.{thousandths}
use vaelmour_game.Combat.Types.{
  Zone, Character, EnemyKind, Enemy, ActionType, CombatAction, RoundInput,
}
use vaelmour_game.Combat.Engine.{
  resolve_block, tick_potion_cooldown, apply_damage, can_character_act, calculate_damage,
}
use vaelmour_game.Combat.Round.{
  ticked_cooldowns, sip, drink_potions, party_attacks, enemy_attacks, deaths, after_potions,
  after_strikes, after_blows, resolve_round, create_attack_action,
}
use vaelmour_game.Combat.Fates.{Each2, Fate, resolve_round-Fates}
use vaelmour_game.Combat.AutoPotion.{
  AutoPotionInput, auto_potion_threshold_by_tier, choose_potion, select_auto_potion,
}
use vaelmour_game.Combat.Chosen.{IsOffered, select_auto_potion-IsOffered}
use vaelmour_game.Combat.Victory.{Weakens, Spared, resolve_round-Weakens, resolve_round-Spared}

abbrev hero : ℕ → ℕ → Character
hero id hp = record {
  id = id;
  name = id;
  class_id = CharacterClass.warrior;
  level = 1;
  current_xp = 0;
  attack = 85;
  max_hp = 1050;
  current_hp = hp;
  alive = ltb 0 hp;
  ready = true;
}

abbrev beast : ℕ → Enemy ℕ
beast hp = record {
  id = 99;
  name = 99;
  kind = EnemyKind.mob;
  attack = 58;
  max_hp = 340;
  current_hp = hp;
  attack_count = 0;
  attack_zone_weights = none;
  defense_zone_weights = none;
  targeting = none;
  boss_pattern = none;
}

abbrev strike_head : CombatAction
strike_head = record {
  kind = ActionType.attack;
  attack_zone = some Zone.head;
  defend_zone = Zone.legs;
  potion_item_id = none;
}

abbrev drink : CombatAction
drink = record {
  kind = ActionType.potion;
  attack_zone = none;
  defend_zone = Zone.head;
  potion_item_id = none;
}

-- Hero 1 strikes at the head, hero 2 drinks, and the enemy strikes hero 1 at the head.
abbrev skirmish : ℕ → RoundInput ℕ
skirmish enemy_hp = record {
  party = hero 1 400 ∷ hero 2 900 ∷ [];
  enemy = beast enemy_hp;
  actions = (1, strike_head) ∷ (2, drink) ∷ [];
  enemy_action = record {
    attack_zone = Zone.head;
    defend_zone = Zone.body;
    target_id = some 1;
    is_group_attack = false;
  };
  potion_cooldown = 0;
  potion_cooldowns = none;
  potion_heal_percents = none;
  random = 0;
}

run_all : Unit {0}
unfolding resolve_block tick_potion_cooldown apply_damage can_character_act calculate_damage
    ticked_cooldowns sip drink_potions party_attacks enemy_attacks deaths after_potions
    after_strikes after_blows resolve_round
run_all = tt

abbrev points : List Character → List ℕ
points [] = []
points (c ∷ cs) = c.current_hp ∷ points cs

-- The enemy of 340 points loses 85 and hits hero 1 for 58; hero 2 is healed to the maximum.
skirmish-points :
    (points (resolve_round thousandths (skirmish 340)).party ≡ 342 ∷ 1050 ∷ [])
    × ((resolve_round thousandths (skirmish 340)).enemy.current_hp ≡ 255)
unfolding run_all
skirmish-points = (refl, refl)

-- An attack names no potion.
attack-potion : (create_attack_action Zone.head Zone.legs).potion_item_id ≡ none
unfolding create_attack_action
attack-potion = refl

resolve_round-Fates_example :
    Each2
      (Fate thousandths (skirmish 340))
      (skirmish 340).party
      (resolve_round thousandths (skirmish 340)).party
resolve_round-Fates_example = resolve_round-Fates thousandths (skirmish 340)

resolve_round-Weakens_example :
    Weakens thousandths
      (skirmish 340)
      (record (beast 340) { attack_count = 1 })
      (resolve_round thousandths (skirmish 340)).enemy
resolve_round-Weakens_example = resolve_round-Weakens thousandths (skirmish 340)

-- An enemy of 80 points falls before it strikes.
resolve_round-Spared_example :
    Each2
      (Spared thousandths (skirmish 80))
      (skirmish 80).party
      (resolve_round thousandths (skirmish 80)).party
unfolding run_all
resolve_round-Spared_example = resolve_round-Spared thousandths (skirmish 80) refl

-- Eight potions of 35 %, and of another kind none.
abbrev satchel : AutoPotionInput ℕ
satchel = record {
  current_hp = 200;
  max_hp = 1050;
  potion_cooldown = 0;
  content_tier = 1;
  potions =
      (record { item_id = 7; quantity = 0; heal_percent = 900 })
      ∷ (record { item_id = 8; quantity = 8; heal_percent = 350 })
      ∷ [];
}

choice : Unit {0}
unfolding auto_potion_threshold_by_tier choose_potion select_auto_potion sort_by insert_by
choice = tt

select_auto_potion-IsOffered_example :
    IsOffered thousandths ltb satchel.potions (record {
      potion_item_id = 8;
      heal_percent = 350;
      expected_heal = 367;
      expected_overheal = 0;
    })
    × ((0 < 200) × (satchel.potion_cooldown ≡ 0))
    × (thousandths.lt (auto_potion_threshold_by_tier thousandths ltb 1) 190 ≡ false)
unfolding choice
select_auto_potion-IsOffered_example =
    select_auto_potion-IsOffered thousandths ltb satchel
      (record {
        potion_item_id = 8;
        heal_percent = 350;
        expected_heal = 367;
        expected_overheal = 0;
      })
      refl
