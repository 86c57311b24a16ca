-- ===== src/Professions.antt =====
-- server/professions/ProfessionService.ts and shared/professions.ts: one gathering job at a time.
pub mod Jobs
mod Tests
use vaelmour_game.Prelude.{
  ℕ, zero, suc, ◌+◌, ◌-◌, ◌*◌, Bool, true, false, not, ◌&&◌, ◌||◌, Option, none, some, List, [],
  ◌∷◌, ◌++◌, ltb, leb, ◌==◌, if◌then◌else◌, find, any, change_first,
}
use vaelmour_game.Prelude.Dict.{lookup}
use vaelmour_game.Data.{CharacterClass, Profession, InventoryEntry, StoredPlayerProfile, includes}
use vaelmour_game.Players.Attempt.{
  Attempt, done, refused, ◌>>=◌, ◌>>◌, or_refuse, refuse_if, activity_not_found, invalid_duration,
  class_has_no_profession, wrong_profession, activity_locked, job_active, job_not_found,
  job_completed, job_in_progress,
}
use vaelmour_game.Players.Bag.{has_item}
use vaelmour_game.Players.Rifts.{completed_in, unlocked_in}

pub data ProfessionJobStatus : Type 0 where
  active cancelled collected : ProfessionJobStatus

pub record ProfessionActivity : Type 0 where
  pub id : ℕ
  pub profession : Profession
  pub resource_id : ℕ
  pub tier : ℕ
  pub required_mastery : ℕ

pub record ProfessionProgressRecord : Type 0 where
  pub profession : Profession
  pub level : ℕ
  pub xp : ℕ

pub record ProfessionJobRecord : Type 0 where
  pub id : ℕ
  pub profession : Profession
  pub activity_id : ℕ
  pub resource_id : ℕ
  pub tier : ℕ
  pub duration_minutes : ℕ
  pub started_at : ℕ
  pub completes_at : ℕ
  pub status : ProfessionJobStatus
  pub planned_quantity : ℕ
  pub planned_xp : ℕ
  pub cancelled_at : Option ℕ
  pub collected_at : Option ℕ

-- The profile with its two fields of this service.
pub record Gatherer : Type 0 where
  pub profile : StoredPlayerProfile
  pub profession_progress : Option ProfessionProgressRecord
  pub profession_jobs : List ProfessionJobRecord

abbrev pub profession_durations : List ℕ
profession_durations = 10 ∷ 60 ∷ 240 ∷ 480 ∷ []

abbrev pub profession_max_level : ℕ
profession_max_level = 60

unfoldable pub profession_by_class : CharacterClass → Option Profession
profession_by_class CharacterClass.blacksmith = some Profession.blacksmith
profession_by_class CharacterClass.alchemist = some Profession.alchemist
profession_by_class CharacterClass.jeweler = some Profession.jeweler
profession_by_class CharacterClass.warrior = none
profession_by_class CharacterClass.ranger = none

abbrev pub profession_number : Profession → ℕ
profession_number Profession.blacksmith = 0
profession_number Profession.alchemist = 1
profession_number Profession.jeweler = 2

unfoldable pub profession_xp_required : ℕ → ℕ
profession_xp_required level = if leb profession_max_level level then 0 else 50 + level * 10

-- Whether the second rift is asked for, and the floor.
unfoldable pub profession_rift_requirement : ℕ → Option (Bool × ℕ)
profession_rift_requirement tier =
    if tier == 1 then none else some (leb 4 tier, if leb 4 tier then tier - 3 else tier)

abbrev pub is_active_job : ProfessionJobRecord → Bool
is_active_job j = elim j.status [ active ↦ true | cancelled ↦ false | collected ↦ false ]

-- What the service is given: the two rifts' identifiers, the activities that it makes from the
-- catalog, the planned reward at an activity, a duration and a mastery, and `randomUUID`.
pub record Gathering : Type 0 where
  pub first_rift : ℕ
  pub second_rift : ℕ
  pub activities : List ProfessionActivity

module _ (gathering : Gathering) where
  -- `activityUnlocked(...) === null`
  unfoldable pub activity_unlocked : StoredPlayerProfile → ProfessionActivity → ℕ → Bool
  activity_unlocked p a level =
      if ltb level a.required_mastery then false else elim (profession_rift_requirement a.tier) [
        | none ↦ true
        | some (second, floor) ↦
            if second && ltb (completed_in (lookup gathering.first_rift p.rift_progress)) 3
            then false
            else not (
                ltb
                  (unlocked_in (
                    lookup (if second then gathering.second_rift else gathering.first_rift)
                      p.rift_progress))
                  floor)
      ]

  abbrev pub progress_of : Profession → Gatherer → ProfessionProgressRecord
  progress_of profession g = elim g.profession_progress [
    | none ↦ record { profession = profession; level = 1; xp = 0 }
    | some p ↦ p
  ]

  -- `plannedProfessionReward(activity, durationMinutes, mastery, random)` is given as `planned`.
  unfoldable pub start :
      (ProfessionActivity → ℕ → ℕ → ℕ × ℕ) → ℕ → ℕ → ℕ → ℕ → Gatherer → Attempt Gatherer
  start planned job_id at activity_id duration g = do
    activity ← or_refuse (find (λ a. a.id == activity_id) gathering.activities) activity_not_found
    refuse_if (not (includes profession_durations duration)) invalid_duration
    profession ← or_refuse (profession_by_class g.profile.class_id) class_has_no_profession
    refuse_if (not (profession_number activity.profession == profession_number profession))
        wrong_profession
    let progress = progress_of profession g
    refuse_if (not (activity_unlocked g.profile activity progress.level)) activity_locked
    refuse_if (any is_active_job g.profession_jobs) job_active
    let reward = planned activity duration progress.level
    done (record g {
      profession_progress = some progress;
      profession_jobs =
          g.profession_jobs
          ++ record {
            id = job_id;
            profession = profession;
            activity_id = activity_id;
            resource_id = activity.resource_id;
            tier = activity.tier;
            duration_minutes = duration;
            started_at = at;
            completes_at = at + duration * 60000;
            status = active;
            planned_quantity = reward.0;
            planned_xp = reward.1;
            cancelled_at = none;
            collected_at = none;
          }
            ∷ [];
    })

unfoldable pub cancel : ℕ → Gatherer → Attempt Gatherer
cancel at g = do
  job ← or_refuse (find is_active_job g.profession_jobs) job_not_found
  refuse_if (leb job.completes_at at) job_completed
  done (record g {
    profession_jobs =
        change_first is_active_job (λ j. record j { status = cancelled; cancelled_at = some at })
          g.profession_jobs;
  })

-- `inventory.push({ entryId: randomUUID(), itemId, quantity })`, or onto the stack
unfoldable pub add_resource : ℕ → ℕ → ℕ → List InventoryEntry → List InventoryEntry
add_resource entry_id item_id quantity es = elim (find (has_item item_id) es) [
  | none ↦ es ++ record { entry_id = entry_id; item_id = item_id; quantity = quantity } ∷ []
  | some _ ↦ change_first (has_item item_id) (λ e. record e { quantity = e.quantity + quantity }) es
]

-- The `while` loop, on the levels that are left below the greatest.
unfoldable pub gain_levels : ℕ → ProfessionProgressRecord → ProfessionProgressRecord
gain_levels zero p = p
gain_levels (suc left) p = elim (leb (profession_xp_required p.level) p.xp) [
  | false ↦ p
  | true ↦
      gain_levels left
        (record p { xp = p.xp - profession_xp_required p.level; level = p.level + 1 })
]

abbrev pub with_planned_xp : ℕ → ProfessionProgressRecord → ProfessionProgressRecord
with_planned_xp xp p = record p { xp = p.xp + xp }

abbrev pub stored_progress : ProfessionJobRecord → Gatherer → ProfessionProgressRecord
stored_progress job g = elim g.profession_progress [
  | none ↦ record { profession = job.profession; level = 1; xp = 0 }
  | some p ↦ p
]

unfoldable pub collect : ℕ → ℕ → Gatherer → Attempt Gatherer
collect entry_id at g = do
  job ← or_refuse (find is_active_job g.profession_jobs) job_not_found
  refuse_if (ltb at job.completes_at) job_in_progress
  let progress = stored_progress job g
  done (record {
    profile = record g.profile {
      inventory = add_resource entry_id job.resource_id job.planned_quantity g.profile.inventory;
    };
    profession_progress = some (
        gain_levels (profession_max_level - progress.level)
          (with_planned_xp job.planned_xp progress));
    profession_jobs =
        change_first is_active_job (λ j. record j { status = collected; collected_at = some at })
          g.profession_jobs;
  })
