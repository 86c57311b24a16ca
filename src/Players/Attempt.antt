-- ===== src/Players/Attempt.antt =====
-- The mutations of server/players/PlayerStateService.ts run on a clone of the profile; a throw
-- discards it, so a refusal carries no state.
use vaelmour_game.Prelude.{Bool, Option, none, some, if◌then◌else◌}

-- The codes of `EconomyError` in that service.
pub data Code : Type 0 where
  player_not_found item_not_owned not_equipment wrong_class wrong_slot slot_empty : Code
  recipe_not_owned wrong_profession already_learned recipe_not_learned : Code
  not_enough_resources not_enough_items unknown_item invalid_admin_value : Code
  invalid_rift_floor rift_floor_locked activity_not_found invalid_duration : Code
  class_has_no_profession activity_locked job_active job_not_found job_completed : Code
  job_in_progress : Code

pub data Attempt (A : Type 0) : Type 0 where
  done : A → Attempt A
  refused : Code → Attempt A

infixl 5 ◌>>=◌ ◌>>◌
unfoldable pub ◌>>=◌ : {A B : Type 0} → Attempt A → (A → Attempt B) → Attempt B
done a >>= f = f a
refused c >>= f = refused c

abbrev pub ◌>>◌ : {A B : Type 0} → Attempt A → Attempt B → Attempt B
m >> k = m >>= λ _. k

abbrev pub or_refuse : {A : Type 0} → Option A → Code → Attempt A
or_refuse none c = refused c
or_refuse (some a) c = done a

abbrev pub refuse_if : Bool → Code → Attempt (Unit {0})
refuse_if b c = if b then refused c else done tt

-- What is done with the result of a helper.
abbrev pub map_done : {A B : Type 0} → (A → B) → Attempt A → Attempt B
map_done f m = m >>= λ a. done (f a)
