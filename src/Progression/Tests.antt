-- ===== src/Progression/Tests.antt =====
-- The level loop on a concrete character.
use vaelmour_game.Prelude.{ℕ, suc, ◌*◌, ◌<◌, ◌≡◌, refl, true, some, arith}
use vaelmour_game.Prelude.Int.{pos}
use vaelmour_game.Data.{CharacterClass}
use vaelmour_game.Combat.Types.{Character}
use vaelmour_game.Progression.{level_ups, with_xp, apply_xp_and_level_ups}
use vaelmour_game.Progression.Levels.{Gains, apply_xp_and_level_ups-Gains}

-- A curve in place of the rounded power.
abbrev linear : ℕ → ℕ
linear level = level * 100

linear-positive : (level : ℕ) → 0 < linear (suc level)
linear-positive level = omega arith

abbrev novice : Character
novice = record {
  id = 1;
  name = 1;
  class_id = CharacterClass.warrior;
  level = 1;
  current_xp = 40;
  attack = 85;
  max_hp = 1050;
  current_hp = 1000;
  alive = true;
  ready = true;
}

-- 40 and 300 points pay for levels 1 and 2, and 40 are left.
novice_levels :
    apply_xp_and_level_ups linear novice (pos 300)
    ≡ some (record {
      character = record novice { level = 3; attack = 87; max_hp = 1060; current_hp = 1010 };
      levels_gained = 2;
    })
unfolding apply_xp_and_level_ups level_ups
novice_levels = refl

apply_xp_and_level_ups-Gains_example :
    (n : ℕ) × (d : Character) × (apply_xp_and_level_ups linear novice (pos 300)
      ≡ some (record { character = d; levels_gained = n }))
    × Gains linear (with_xp linear novice (pos 300)) d n
apply_xp_and_level_ups-Gains_example =
    apply_xp_and_level_ups-Gains linear linear-positive novice (pos 300) (omega arith)
