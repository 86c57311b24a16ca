-- ===== src/Rooms/Start.antt =====
-- startExpedition and startRound of server/rooms/RoomManager.ts.
use vaelmour_game.Prelude.{
  ℕ, ◌+◌, Bool, true, false, not, ◌||◌, Option, none, some, List, [], ◌∷◌, ltb, ◌==◌, any, map,
  length,
}
use vaelmour_game.Prelude.Int.{pos}
use vaelmour_game.Prelude.Dict.{Dict, lookup, values}
use vaelmour_game.Combat.Types.{Float, Character, Enemy}
use vaelmour_game.Combat.Engine.{nth}
use vaelmour_game.Combat.Enemies.{create_rift_enemy}
use vaelmour_game.Economy.Slots.{settle_party_slots}
use vaelmour_game.Economy.Repository.{
  Database, DurableExpeditionStart, StartOutcome, started, already, refused,
  start_expedition_transact,
}
use vaelmour_game.Players.Bag.{count_in}
use vaelmour_game.Players.Profile.{to_character}
use vaelmour_game.Loot.{no_loot}
use vaelmour_game.Rooms.Handler.{
  Handler, Void, Thrown, economy, unknown_enemy, Exit, value, thrown, server_shutting_down,
  leader_only, already_started, party_too_small, party_member_disconnected, not_ready,
  party_floor_locked, ◌>>=◌, ◌>>◌, pure, fail_if, or_fail, or_throw, gets, for_each, try_catch,
}
use vaelmour_game.Rooms.Types.{
  RoomPhase, PresenceStatus, RoomMember, RoomState, Manager, RefundReason, Setup,
}
use vaelmour_game.Rooms.Store.{
  has_key, keys_of, is_lobby, find_member_room, change_room, set_presence, put_availability,
  take_draw, now, require_profile, rift_progress, refund_slot, floor_encounters,
}
use vaelmour_game.Rooms.Lobby.{told}

-- What is read before the start is paid for: the character and the potions of a member.
pub record Prepared : Type 0 where
  pub character : Character
  pub potion_quantities : Dict ℕ

abbrev pub is_away : Dict ℕ → RoomMember → Bool
is_away peers m =
    not m.connected || elim m.peer [ none ↦ true | some _ ↦ not (has_key m.character.id peers) ]

abbrev pub sum_values : Dict ℕ → ℕ
sum_values [] = 0
sum_values ((_, n) ∷ d) = n + sum_values d

abbrev pub with_prepared : Option Prepared → RoomMember → RoomMember
with_prepared none m = m
with_prepared (some p) m = record m {
  character = record p.character { current_hp = p.character.max_hp; alive = true; ready = false };
  potion_cooldown = 0;
  expedition_potion_quantities = p.potion_quantities;
  expedition_potions = pos (sum_values p.potion_quantities);
}

-- `prepared.get(id)` for each member
abbrev pub prepare_members : Dict Prepared → Dict RoomMember → Dict RoomMember
prepare_members prepared [] = []
prepare_members prepared ((id, m) ∷ ms) =
    (id, with_prepared (lookup id prepared) m) ∷ prepare_members prepared ms

module _ {F : Type 0} where
  abbrev pub with_expedition : ℕ → RoomState F → RoomState F
  with_expedition id room = record room { expedition_id = some id }

  abbrev pub begun : Dict Prepared → Enemy F → RoomState F → RoomState F
  begun prepared enemy room = record room {
    phase = RoomPhase.combat;
    applications = [];
    encounter_index = 0;
    enemy = some enemy;
    round = 1;
    expedition_loot = map (λ id. (id, no_loot)) (keys_of room.members);
    extracted = false;
    members = prepare_members prepared room.members;
  }

  abbrev pub with_round : ℕ → RoomState F → RoomState F
  with_round ends_at room = record room { actions = []; round_ends_at = some ends_at }

  -- What `startExpeditionTransact` answers; a marker that is missing is thrown.
  abbrev pub settle_start : Manager F → StartOutcome × Database → Exit ℕ × Manager F
  settle_start s (started m, db) = (value m.expedition_id, record s { database = db })
  settle_start s (already m, db) = (value m.expedition_id, record s { database = db })
  settle_start s (StartOutcome.marker_missing, db) =
      (thrown Thrown.marker_missing, record s { database = db })
  settle_start s (refused e, db) = (thrown (economy e), record s { database = db })

module _ (fl : Float) (setup : Setup fl.F) where
  open fl use {F}

  -- `economy.startExpedition`
  unfoldable pub start_paid : DurableExpeditionStart → ℕ → List ℕ → Handler (Manager F) ℕ
  start_paid marker leader_id member_ids s = settle_start s (
      start_expedition_transact (setup.keys.start marker.room_id) marker
        (settle_party_slots setup.env marker.room_id leader_id member_ids) s.database)

  -- `createEnemy`
  unfoldable pub create_enemy : ℕ → ℕ → ℕ → ℕ → Handler (Manager F) (Enemy F)
  create_enemy rift_id floor_number index party_size = do
    encounters ← floor_encounters setup rift_id floor_number
    definition ← or_throw (nth index encounters) unknown_enemy
    or_throw
        (create_rift_enemy fl setup.scaling definition setup.enemy_id rift_id floor_number index
          party_size)
        unknown_enemy

  unfoldable pub start_round : ℕ → Handler (Manager F) Void
  start_round room_id = do
    at ← now setup
    change_room room_id (with_round (at + setup.round_duration_ms))

  unfoldable pub check_unlocked : RoomState F → ℕ → Handler (Manager F) Void
  check_unlocked room player_id = do
    progress ← rift_progress setup player_id room.rift_id
    fail_if (ltb progress.highest_unlocked_floor room.floor_number) party_floor_locked

  unfoldable pub check_present : RoomState F → Handler (Manager F) Void
  check_present room = do
    peers ← gets (λ s. s.peers)
    fail_if (any (is_away peers) (values room.members)) party_member_disconnected

  unfoldable pub prepare : List ℕ → Handler (Manager F) (Dict Prepared)
  prepare [] = pure []
  prepare (id ∷ ids) = do
    p ← require_profile id
    rest ← prepare ids
    pure (
        (
          id,
          record {
            character = to_character setup.env.catalog p;
            potion_quantities =
                map (λ item_id. (item_id, count_in p.inventory item_id)) setup.potion_ids;
          },
        )
        ∷ rest)

  unfoldable pub send_off : ℕ × RoomMember → Handler (Manager F) Void
  send_off (id, m) = do put_availability id m.connected true; set_presence id PresenceStatus.rift

  -- The body of the `try`. The model has no play sessions: the marker names session 0.
  unfoldable pub depart : RoomState F → ℕ → ℕ → Handler (Manager F) Void
  depart room leader_id expedition_id = do
    for_each (refund_slot setup RefundReason.start_reject room.id) (keys_of room.applications)
    check_present room
    let member_ids = keys_of room.members
    prepared ← prepare member_ids
    enemy ← create_enemy room.rift_id room.floor_number 0 (length room.members)
    id ←
        start_paid
          (record {
            expedition_id = expedition_id;
            play_session_id = 0;
            room_id = room.id;
            rift_id = room.rift_id;
            floor = room.floor_number;
            player_ids = member_ids;
          })
          leader_id member_ids
    change_room room.id (with_expedition id)
    change_room room.id (begun prepared enemy)
    for_each send_off room.members

  unfoldable pub start_expedition : ℕ → Handler (Manager F) Void
  start_expedition player_id = do
    accepting ← gets (λ s. s.accepting)
    fail_if (not accepting) server_shutting_down
    r ← find_member_room player_id
    room ← or_fail r leader_only
    fail_if (not (room.leader_id == player_id)) leader_only
    fail_if (not (is_lobby room.phase)) already_started
    fail_if (ltb (length room.members) setup.min_party_size) party_too_small
    check_present room
    fail_if (any (λ m. not m.ready) (values room.members)) not_ready
    for_each (check_unlocked room) (keys_of room.members)
    draw ← take_draw
    change_room room.id (with_expedition (setup.uuid draw))
    try_catch (depart room player_id (setup.uuid draw)) told
    start_round room.id
