-- ===== src/Combat/Enemies.antt =====
-- server/combat/firstRiftEnemyFactory.ts: the enemies of a rift, scaled to the party.
use vaelmour_game.Prelude.{ℕ, max, min, Option, none, some, leb, if◌then◌else◌}
use vaelmour_game.Combat.Types.{Float, EnemyKind, Targeting, ZoneWeights, BossPattern, Enemy}

-- shared/game-data/enemies/types.ts, with `type` as the kind that it stands for
pub record EnemyDefinition (F : Type 0) : Type 0 where
  pub id : ℕ
  pub name : ℕ
  pub kind : EnemyKind
  pub level : ℕ
  pub max_hp : ℕ
  pub attack : ℕ
  pub attack_zone_weights : ZoneWeights F
  pub defense_zone_weights : ZoneWeights F
  pub targeting : Targeting
  pub base_xp : ℕ
  pub base_coins : ℕ
  pub loot_tier : ℕ
  pub boss_pattern : Option (BossPattern F)

pub record PartySizeScaling (F : Type 0) : Type 0 where
  pub hp : F
  pub attack : F

-- The tables of shared/game-data/balance.ts: `RIFT_PARTY_SIZE_SCALING` by rift and size, 1 to 5, and
-- `RIFT_LOW_PARTY_FLOOR_MODIFIERS` by rift, size and floor, with what stands for a rift without one.
pub record ScalingTables (F : Type 0) : Type 0 where
  pub party_size : ℕ → ℕ → PartySizeScaling F
  pub low_party : ℕ → ℕ → ℕ → PartySizeScaling F

module _ (fl : Float) (tables : ScalingTables fl.F) where
  open fl use {F, of_ℕ, mul, round}

  unfoldable pub party_scaling : ℕ → ℕ → PartySizeScaling F
  party_scaling party_size rift_id = tables.party_size rift_id (max 1 (min 5 party_size))

  abbrev pub low_party_modifier : ℕ → ℕ → ℕ → PartySizeScaling F
  low_party_modifier party_size floor rift_id =
      if leb party_size 2
      then tables.low_party rift_id party_size floor
      else record { hp = of_ℕ 1; attack = of_ℕ 1 }

  unfoldable pub scale_enemy_definition : EnemyDefinition F → ℕ → ℕ → ℕ → EnemyDefinition F
  scale_enemy_definition definition party_size floor_number rift_id =
      let scaling = party_scaling party_size rift_id in
      let floor = max 1 (min 3 floor_number) in
      let modifier = low_party_modifier party_size floor rift_id in
      record definition {
        max_hp = round (mul (mul (of_ℕ definition.max_hp) scaling.hp) modifier.hp);
        attack = round (mul (mul (of_ℕ definition.attack) scaling.attack) modifier.attack);
      }

  -- `enemy-<floor>-<encounter>` is given as `enemy_id`.
  abbrev pub enemy_of : ℕ → EnemyDefinition F → Enemy F
  enemy_of enemy_id d = record {
    id = enemy_id;
    name = d.name;
    kind = d.kind;
    attack = d.attack;
    max_hp = d.max_hp;
    current_hp = d.max_hp;
    attack_count = 0;
    attack_zone_weights = some d.attack_zone_weights;
    defense_zone_weights = some d.defense_zone_weights;
    targeting = some d.targeting;
    boss_pattern = d.boss_pattern;
  }

  -- `none` is the error that the source throws without a definition, which is
  -- `floorEncounters(riftId, floorNumber)[encounterIndex]`.
  unfoldable pub create_rift_enemy :
      Option (EnemyDefinition F) → (ℕ → ℕ → ℕ) → ℕ → ℕ → ℕ → ℕ → Option (Enemy F)
  create_rift_enemy none enemy_id rift_id floor_number index party_size = none
  create_rift_enemy (some d) enemy_id rift_id floor_number index party_size = some (
      enemy_of (enemy_id floor_number index)
        (scale_enemy_definition d party_size floor_number rift_id))
