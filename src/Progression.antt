-- ===== src/Progression.antt =====
-- shared/game-data/progression.ts and src/progression/progression.ts: experience and levels.
pub mod Levels
mod Tests
use vaelmour_game.Prelude.{
  ℕ, zero, suc, ◌+◌, ◌-◌, ◌*◌, ◌/◌, not, Option, none, some, leb, if◌then◌else◌,
}
use vaelmour_game.Prelude.Int.{ℤ, pos, pos_part, ◌-ℤ◌, ◌≤ℤ◌, ltb_ℤ}
use vaelmour_game.Combat.Types.{Character}

-- `XP_PENALTY_BRACKETS`, the multiplier in hundredths
unfoldable pub xp_multiplier : ℕ → ℕ → ℕ
unfolding ◌-ℤ◌
xp_multiplier player_level enemy_level =
    let difference = pos player_level -ℤ pos enemy_level in
    if not (ltb_ℤ (pos 3) difference)
    then 100
    else if not (ltb_ℤ (pos 6) difference)
    then 75
    else if not (ltb_ℤ (pos 10) difference)
    then 50
    else if not (ltb_ℤ (pos 15) difference)
    then 25
    else 10

-- `Math.round(baseXP * multiplier)`: the products of the doubles are exact at the halves, where the
-- rounding turns.
unfoldable pub adjusted_enemy_xp : ℕ → ℕ → ℕ → ℕ
unfolding xp_multiplier
adjusted_enemy_xp base_xp player_level enemy_level =
    (base_xp * xp_multiplier player_level enemy_level + 50) / 100

abbrev pub level_gain_attack : ℕ
level_gain_attack = 1

abbrev pub level_gain_max_hp : ℕ
level_gain_max_hp = 5

pub record ProgressionResult : Type 0 where
  pub character : Character
  pub levels_gained : ℕ

-- One round of the loop.
abbrev pub level_up : ℕ → ProgressionResult → ProgressionResult
level_up required r =
    let c = r.character in
    record {
      character = record c {
        current_xp = c.current_xp - required;
        level = suc c.level;
        attack = c.attack + level_gain_attack;
        max_hp = c.max_hp + level_gain_max_hp;
        current_hp = c.current_hp + level_gain_max_hp;
      };
      levels_gained = suc r.levels_gained;
    }

-- `xpRequired`, the rounded power, is a parameter: the source computes it by `Math.pow`.
module _ (xp_required : ℕ → ℕ) where
  -- `while (currentXP >= calculateXPRequired(level))`, with the rounds that it may take; `none`
  -- means that they ran out.
  unfoldable pub level_ups : ℕ → ProgressionResult → Option ProgressionResult
  level_ups zero r = none
  level_ups (suc rounds) r =
      let required = xp_required r.character.level in
      let more = level_ups rounds (level_up required r) in
      if leb required r.character.current_xp then more else some r

  abbrev pub with_xp : Character → ℤ → Character
  with_xp c earned_xp = record c { current_xp = c.current_xp + pos_part earned_xp }

  -- Past level 0 a round takes at least one point of experience.
  unfoldable pub apply_xp_and_level_ups : Character → ℤ → Option ProgressionResult
  unfolding level_ups
  apply_xp_and_level_ups c earned_xp =
      level_ups (suc (suc (with_xp c earned_xp).current_xp))
        (record { character = with_xp c earned_xp; levels_gained = 0 })
