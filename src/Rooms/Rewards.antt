-- ===== src/Rooms/Rewards.antt =====
-- completeEncounter, mergeLoot and extractLoot of server/rooms/RoomManager.ts.
use vaelmour_game.Prelude.{
  ℕ, suc, ◌*◌, ◌/◌, Bool, true, false, not, none, some, [], ◌∷◌, ◌++◌, map, ◌==◌, if◌then◌else◌,
  length,
}
use vaelmour_game.Prelude.Int.{pos}
use vaelmour_game.Prelude.Dict.{Dict, lookup}
use vaelmour_game.Data.{CharacterClass, PersonalLoot}
use vaelmour_game.Combat.Types.{Float, Character}
use vaelmour_game.Combat.Engine.{nth, or_else}
use vaelmour_game.Combat.Enemies.{EnemyDefinition}
use vaelmour_game.Economy.Types.{LedgerReason}
use vaelmour_game.Economy.Repository.{Database}
use vaelmour_game.Economy.Repository.Profiles.{Change, transact}
use vaelmour_game.Players.Attempt.{done, map_done}
use vaelmour_game.Players.Bag.{Supply}
use vaelmour_game.Players.Items.{award_progression, commit_loot}
use vaelmour_game.Players.Rifts.{complete_rift_floor}
use vaelmour_game.Progression.{adjusted_enemy_xp, apply_xp_and_level_ups}
use vaelmour_game.Loot.{LootParticipant, no_loot, add_resource, generate_profession_loot}
use vaelmour_game.Rooms.Handler.{
  Handler, Void, type_error, out_of_rounds, silent, ◌>>=◌, ◌>>◌, pure, or_fail, or_throw, gets,
  when, for_each,
}
use vaelmour_game.Rooms.Types.{RoomPhase, RoomMember, RoomState, Manager, Setup}
use vaelmour_game.Rooms.Store.{
  keys_of, change_at, room_at, change_room, set_identity, set_randoms, change_profile,
  require_profile, floor_encounters,
}

-- `Math.floor(coins * COIN_MULTIPLIER[classId])`: the classes with a profession get six tenths. For
-- amounts below 2 ^ 46 the product of the doubles has the same floor.
unfoldable pub class_coins : CharacterClass → ℕ → ℕ
class_coins CharacterClass.warrior coins = coins
class_coins CharacterClass.ranger coins = coins
class_coins _ coins = coins * 6 / 10

abbrev pub add_resources : Dict ℕ → PersonalLoot → PersonalLoot
add_resources [] loot = loot
add_resources ((id, quantity) ∷ ds) loot = add_resources ds (add_resource id quantity loot)

unfoldable pub merge_loot : PersonalLoot → PersonalLoot → PersonalLoot
merge_loot added target =
    let filled = add_resources added.resources target in
    record filled { recipe_ids = filled.recipe_ids ++ added.recipe_ids }

-- A successful run keeps all, a failed one half: `Math.floor(quantity * retained)`.
unfoldable pub retained : Bool → ℕ → ℕ
retained true n = n
retained false n = n / 2

abbrev pub as_participant : ℕ × RoomMember → LootParticipant
as_participant (id, m) = record {
  id = id;
  class_id = m.character.class_id;
  alive = m.character.alive;
}

-- `if (!wasAlive) member.character = { ...member.character, currentHP: 0, alive: false }`
abbrev pub keep_fallen : Bool → Character → Character
keep_fallen true c = c
keep_fallen false c = record c { current_hp = 0; alive = false }

abbrev pub with_character : Character → RoomMember → RoomMember
with_character c m = record m { character = c }

module _ {F : Type 0} where
  abbrev pub with_rewards : ℕ → Character → PersonalLoot → RoomState F → RoomState F
  with_rewards player_id c loot room = record room {
    members = change_at player_id (with_character c) room.members;
    expedition_loot = change_at player_id (merge_loot loot) room.expedition_loot;
  }

  abbrev pub after_encounter : RoomState F → RoomState F
  after_encounter room = record room {
    phase = RoomPhase.post_encounter;
    round_ends_at = none;
    votes = [];
  }

  abbrev pub with_extracted : RoomState F → RoomState F
  with_extracted room = record room { extracted = true }

  module _ (setup : Setup F) where
    abbrev pub supply : Supply
    supply = record { catalog = setup.env.catalog; random_uuid = setup.env.random_uuid }

    unfoldable pub award_profile : ℕ → ℕ → ℕ → ℕ → ℕ → ℕ → Database → Change × Database
    award_profile player_id room_id index level xp coins =
        transact setup.env player_id (setup.keys.encounter player_id room_id index)
          (some (pos coins, LedgerReason.rift_reward))
          (λ w. done (record w { profile = award_progression level xp (pos coins) w.profile }))

    unfoldable pub complete_floor : ℕ → ℕ → ℕ → ℕ → Database → Change × Database
    complete_floor player_id room_id rift_id floor_number =
        transact setup.env player_id (setup.keys.floor player_id room_id floor_number) none (λ w.
          map_done (λ p. record w { profile = p })
            (complete_rift_floor setup.rifts rift_id floor_number w.profile))

    unfoldable pub extract_profile : ℕ → ℕ → Bool → PersonalLoot → Database → Change × Database
    extract_profile player_id room_id successful loot =
        transact setup.env player_id (setup.keys.extraction player_id room_id) none (λ w.
          map_done (λ r. r.0) (commit_loot supply (retained successful) setup.recipe_item loot w))

    -- One round of the loop of `extractLoot`.
    unfoldable pub extract_one : RoomState F → Bool → ℕ → Handler (Manager F) Void
    extract_one room successful player_id = do
      change_profile (
          extract_profile player_id room.id successful
            (or_else (lookup player_id room.expedition_loot) no_loot))
      require_profile player_id
      pure tt

    unfoldable pub extract_loot : ℕ → Bool → Handler (Manager F) Void
    extract_loot room_id successful = do
      r ← room_at room_id
      room ← or_fail r silent
      when (not room.extracted) (
          for_each (extract_one room successful) (keys_of room.members)
          >> change_room room.id with_extracted)

    -- One round of the loop over the members, with what each has won.
    unfoldable pub reward_member :
        RoomState F
        → EnemyDefinition F
        → Dict PersonalLoot
        → ℕ × RoomMember
        → Handler (Manager F) Void
    reward_member room definition personal (id, m) = do
      let was_alive = m.character.alive
      let xp =
          if was_alive
          then adjusted_enemy_xp definition.base_xp m.character.level definition.level
          else 0
      gained ←
          or_throw (apply_xp_and_level_ups setup.xp_required m.character (pos xp)) out_of_rounds
      let c = keep_fallen was_alive gained.character
      set_identity c.id c
      let coins = if was_alive then class_coins c.class_id definition.base_coins else 0
      change_profile (award_profile id room.id room.encounter_index c.level c.current_xp coins)
      require_profile id
      change_room room.id (with_rewards id c (or_else (lookup id personal) no_loot))

    -- The floor counts as completed for every member.
    unfoldable pub complete_floors : RoomState F → ℕ → Handler (Manager F) Void
    complete_floors room total = when (suc room.encounter_index == total) (
        for_each
          (λ id. change_profile (complete_floor id room.id room.rift_id room.floor_number) >>= λ _.
            pure tt)
          (keys_of room.members))

module _ (fl : Float) (setup : Setup fl.F) where
  open fl use {F}

  unfoldable pub complete_encounter : RoomState F → Handler (Manager F) Void
  complete_encounter room = do
    encounters ← floor_encounters setup room.rift_id room.floor_number
    known ← or_throw (nth room.encounter_index encounters) type_error
    definition ← or_throw known type_error
    n ← gets (λ s. s.randoms)
    let rolls =
        generate_profession_loot fl (setup.loot_options definition.loot_tier)
          (map as_participant room.members) definition.kind n
    set_randoms rolls.random
    for_each (reward_member setup room definition rolls.personal) room.members
    complete_floors setup room (length encounters)
    change_room room.id after_encounter
