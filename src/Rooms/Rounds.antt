-- ===== src/Rooms/Rounds.antt =====
-- submitAction, setAutoBattle, resolveDueRounds and resolveRoomRound of server/rooms/RoomManager.ts.
use vaelmour_game.Prelude.{
  ℕ, Bool, true, false, not, ◌&&◌, ◌||◌, Option, none, some, ltb, leb, ◌==◌, any, is_some,
}
use vaelmour_game.Prelude.Int.{pos, ltb_ℤ}
use vaelmour_game.Prelude.Dict.{lookup}
use vaelmour_game.Combat.Types.{Float, Enemy}
use vaelmour_game.Rooms.Handler.{
  Handler, Void, Thrown, not_in_combat, stale_round, player_dead, invalid_action, attack_required,
  potion_cooldown, no_potions, silent, ◌>>=◌, ◌>>◌, fail_if, or_fail, gets, when, for_each,
  try_catch, call, branch,
}
use vaelmour_game.Rooms.Types.{RoomState, Manager, Setup}
use vaelmour_game.Rooms.Store.{is_combat, find_member_room, room_at, change_room, set_randoms}
use vaelmour_game.Rooms.Leaving.{finalize_room}
use vaelmour_game.Rooms.Start.{start_round}
use vaelmour_game.Rooms.Rewards.{extract_loot, complete_encounter}
use vaelmour_game.Rooms.Votes.{free_member}
use vaelmour_game.Rooms.Battle.{
  SubmittedAction, to_combat_action, is_alive, with_submitted, with_auto, set_resolving,
  with_result, stopped, next_round, can_resolve_early, plan_actions, settle_actions, fight,
}

abbrev pub is_none : {A : Type 0} → Option A → Bool
is_none o = not (is_some o)

-- `room.roundEndsAt !== null && at >= room.roundEndsAt`
abbrev pub is_due : ℕ → Option ℕ → Bool
is_due at none = false
is_due at (some ends_at) = leb ends_at at

module _ (fl : Float) (setup : Setup fl.F) where
  open fl use {F}

  -- The run is lost: all have fallen.
  unfoldable pub lose_run : RoomState F → Handler (Manager F) Void
  lose_run room = do
    change_room room.id stopped
    for_each free_member room.members
    call (extract_loot setup room.id false)
    finalize_room room.id

  -- What follows the round: a loss, the end of the encounter, or the next round.
  unfoldable pub after_round : RoomState F → Enemy F → Handler (Manager F) Void
  after_round room enemy = branch (not (any is_alive room.members)) (lose_run room) (
      branch (leb enemy.current_hp 0) (complete_encounter fl setup room)
        (change_room room.id next_round >> start_round fl setup room.id))

  unfoldable pub play_round : RoomState F → Enemy F → Handler (Manager F) Void
  play_round room enemy = do
    n ← gets (λ s. s.randoms)
    let planned =
        plan_actions fl setup room room.members (record { actions = room.actions; random = n })
    actions ← settle_actions fl setup room planned.actions
    r ← room_at room.id
    ready ← or_fail r silent
    let result = fight fl setup ready enemy actions planned.random
    change_room room.id (with_result result)
    set_randoms result.random
    after ← room_at room.id
    fought ← or_fail after silent
    after_round fought result.enemy

  -- The `catch` of the round: any error stops the expedition.
  unfoldable pub stop_run : ℕ → Thrown → Option (Handler (Manager F) Void)
  stop_run room_id t = some (change_room room_id stopped >> finalize_room room_id)

  unfoldable pub resolve_room_round : ℕ → Handler (Manager F) Void
  resolve_room_round room_id = do
    r ← room_at room_id
    room ← or_fail r silent
    fail_if (room.resolving || not (is_combat room.phase)) silent
    enemy ← or_fail room.enemy silent
    change_room room_id (set_resolving true)
    try_catch (call (play_round room enemy)) (stop_run room_id)
    change_room room_id (set_resolving false)

  unfoldable pub submit_action : ℕ → SubmittedAction → Handler (Manager F) Void
  submit_action player_id a = do
    r ← find_member_room player_id
    room ← or_fail r not_in_combat
    member ← or_fail (lookup player_id room.members) not_in_combat
    fail_if (not (is_combat room.phase)) not_in_combat
    fail_if (not (a.round == room.round)) stale_round
    fail_if (not member.character.alive) player_dead
    fail_if (a.use_potion && is_some a.attack_zone) invalid_action
    fail_if (not a.use_potion && is_none a.attack_zone) attack_required
    fail_if (a.use_potion && ltb 0 member.potion_cooldown) potion_cooldown
    fail_if (a.use_potion && not (ltb_ℤ (pos 0) member.expedition_potions)) no_potions
    change_room room.id (with_submitted player_id (to_combat_action a))
    r' ← room_at room.id
    submitted ← or_fail r' silent
    when (can_resolve_early submitted) (resolve_room_round room.id)

  unfoldable pub set_auto_battle : ℕ → Bool → Handler (Manager F) Void
  set_auto_battle player_id enabled = do
    r ← find_member_room player_id
    room ← or_fail r not_in_combat
    fail_if (not (is_combat room.phase)) not_in_combat
    change_room room.id (with_auto player_id enabled)
    r' ← room_at room.id
    switched ← or_fail r' silent
    when (not enabled && can_resolve_early switched) (resolve_room_round room.id)

  -- One room of the loop of `resolveDueRounds`.
  unfoldable pub resolve_due : ℕ → ℕ × RoomState F → Handler (Manager F) Void
  resolve_due at (room_id, room) =
      when (is_combat room.phase && is_due at room.round_ends_at)
        (call (resolve_room_round room_id))

  unfoldable pub resolve_due_rounds : ℕ → Handler (Manager F) Void
  resolve_due_rounds at = do rooms ← gets (λ s. s.rooms); for_each (resolve_due at) rooms
