-- ===== src/Combat/Types.antt =====
-- src/types/game.ts and the constants of src/data/config/balance.ts that the combat engine reads.
use vaelmour_game.Prelude.{ℕ, Bool, Option, List, [], ◌∷◌}
use vaelmour_game.Prelude.Dict.{Dict}
use vaelmour_game.Data.{CharacterClass}

-- JavaScript's numbers where they are not integers, and `random` as a sequence of answers.
pub record Float : Type 1 where
  pub F : Type 0
  pub of_ℕ : ℕ → F
  pub add : F → F → F
  pub sub : F → F → F
  pub mul : F → F → F
  pub div : F → F → F
  pub max : F → F → F
  pub lt : F → F → Bool
  pub le : F → F → Bool
  pub floor : F → ℕ
  pub round : F → ℕ
  pub random : ℕ → F
  pub damage_spread : F
  pub potion_heal_percent : F

pub data Zone : Type 0 where
  head body legs : Zone

abbrev pub zones : List Zone
zones = Zone.head ∷ Zone.body ∷ Zone.legs ∷ []

abbrev pub potion_cooldown_rounds : ℕ
potion_cooldown_rounds = 2

pub record Character : Type 0 where
  pub id : ℕ
  pub name : ℕ
  pub class_id : CharacterClass
  pub level : ℕ
  pub current_xp : ℕ
  pub attack : ℕ
  pub max_hp : ℕ
  pub current_hp : ℕ
  pub alive : Bool
  pub ready : Bool

pub data EnemyKind : Type 0 where
  mob elite boss : EnemyKind

pub data Targeting : Type 0 where
  random lowest_hp highest_hp : Targeting

-- Weights of the zones, as a number for each.
pub record ZoneWeights (F : Type 0) : Type 0 where
  pub head : F
  pub body : F
  pub legs : F

pub record BossPattern (F : Type 0) : Type 0 where
  pub group_attack_every : ℕ
  pub cycle_length : Option ℕ
  pub cycle_weights : Option (List (ZoneWeights F))

pub record Enemy (F : Type 0) : Type 0 where
  pub id : ℕ
  pub name : ℕ
  pub kind : EnemyKind
  pub attack : ℕ
  pub max_hp : ℕ
  pub current_hp : ℕ
  pub attack_count : ℕ
  pub attack_zone_weights : Option (ZoneWeights F)
  pub defense_zone_weights : Option (ZoneWeights F)
  pub targeting : Option Targeting
  pub boss_pattern : Option (BossPattern F)

pub data ActionType : Type 0 where
  attack potion : ActionType

pub record CombatAction : Type 0 where
  pub kind : ActionType
  pub attack_zone : Option Zone
  pub defend_zone : Zone
  pub potion_item_id : Option ℕ

pub record EnemyAction : Type 0 where
  pub attack_zone : Zone
  pub defend_zone : Zone
  pub target_id : Option ℕ
  pub is_group_attack : Bool

-- `random` counts the answers that were used before the round.
pub record RoundInput (F : Type 0) : Type 0 where
  pub party : List Character
  pub enemy : Enemy F
  pub actions : Dict CombatAction
  pub enemy_action : EnemyAction
  pub potion_cooldown : ℕ
  pub potion_cooldowns : Option (Dict ℕ)
  pub potion_heal_percents : Option (Dict F)
  pub random : ℕ

-- The lines of the log, whose texts the source words in Ukrainian.
pub data LogLine : Type 0 where
  heals : ℕ → ℕ → LogLine
  strike_blocked : ℕ → Zone → LogLine
  strikes : ℕ → ℕ → LogLine
  blocks : ℕ → Zone → LogLine
  receives : ℕ → ℕ → LogLine
  falls : ℕ → LogLine
  defeated : ℕ → LogLine

pub record RoundResult (F : Type 0) : Type 0 where
  pub party : List Character
  pub enemy : Enemy F
  pub potion_cooldown : ℕ
  pub potion_cooldowns : Dict ℕ
  pub log : List LogLine
  pub random : ℕ
