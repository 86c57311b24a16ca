-- ===== src/Professions/Tests.antt =====
-- A gathering job at a concrete player.
use vaelmour_game.Prelude.{ℕ, ◌≡◌, refl, none, some, List, [], ◌∷◌, arith}
use vaelmour_game.Prelude.Int.{pos}
use vaelmour_game.Data.{CharacterClass, Profession}
use vaelmour_game.Players.Attempt.{◌>>=◌}
use vaelmour_game.Professions.{
  Gatherer, Gathering, profession_by_class, profession_rift_requirement, profession_xp_required,
  activity_unlocked, start, cancel, add_resource, gain_levels, collect,
}
use vaelmour_game.Professions.Jobs.{
  AtMostOne, Command, start_job, collect_job, obey_all, obey_all-AtMostOne,
}

abbrev miner : Gatherer
miner = record {
  profile = record {
    account_id = 1;
    player_id = 1;
    name = 1;
    name_key = 1;
    class_id = CharacterClass.blacksmith;
    level = 1;
    current_xp = 0;
    coins = pos 0;
    reserved_coins = pos 0;
    inventory = [];
    storage = [];
    equipment = record {
      weapon = none;
      head = none;
      chest = none;
      hands = none;
      legs = none;
      feet = none;
      ring1 = none;
      ring2 = none;
      amulet = none;
    };
    learned_recipes = [];
    reserved_items = [];
    rift_progress = [];
  };
  profession_progress = none;
  profession_jobs = [];
}

-- Activity 4 gathers the resource 9.
abbrev gathering : Gathering
gathering = record {
  first_rift = 1;
  second_rift = 2;
  activities =
      record {
        id = 4;
        profession = Profession.blacksmith;
        resource_id = 9;
        tier = 1;
        required_mastery = 1;
      }
      ∷ [];
}

abbrev begin_job : ℕ → ℕ → Command
begin_job id at = start_job (λ a duration level. (5, 70)) id at 4 10

-- Started, started again, collected too early, then collected, then started once more.
abbrev shift : List Command
shift =
    begin_job 1 0
    ∷ begin_job 2 10
    ∷ collect_job 50 20
    ∷ collect_job 51 600000
    ∷ begin_job 3 600001
    ∷ []

run_all : Unit {0}
unfolding ◌>>=◌ profession_by_class profession_rift_requirement profession_xp_required
    activity_unlocked start cancel add_resource gain_levels collect obey_all
run_all = tt

shift-run :
    (obey_all gathering shift miner).profession_progress
    ≡ some (record { profession = Profession.blacksmith; level = 2; xp = 10 })
unfolding run_all
shift-run = refl

obey_all-AtMostOne_example : AtMostOne (obey_all gathering shift miner)
obey_all-AtMostOne_example = obey_all-AtMostOne gathering shift miner (omega arith)
