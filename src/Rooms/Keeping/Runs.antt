-- ===== src/Rooms/Keeping/Runs.antt =====
-- Starts, rounds, rewards and votes of server/rooms/RoomManager.ts keep every invariant that satisfies
-- the laws.
use vaelmour_game.Prelude.{ℕ, Bool, false, List, [], ◌∷◌}
use vaelmour_game.Prelude.Dict.{Dict}
use vaelmour_game.Data.{PersonalLoot}
use vaelmour_game.Combat.Types.{Float, Enemy, CombatAction}
use vaelmour_game.Combat.Enemies.{EnemyDefinition}
use vaelmour_game.Players.Attempt.{Code}
use vaelmour_game.Rooms.Handler.{Thrown, service}
use vaelmour_game.Rooms.Types.{ExpeditionVote, RoomMember, RoomState, Manager, Setup}
use vaelmour_game.Rooms.Store.{floor_encounters}
use vaelmour_game.Rooms.Start.{
  create_enemy, start_round, check_unlocked, check_present, prepare, send_off, depart,
  start_expedition,
}
use vaelmour_game.Rooms.Rewards.{
  extract_one, extract_loot, reward_member, complete_floors, complete_encounter,
}
use vaelmour_game.Rooms.Votes.{free_member, finish_run, go_on, carry_out, evaluate_votes, vote}
use vaelmour_game.Rooms.Battle.{
  SubmittedAction, lacking, consume_potion, drink_or_attack, settle_action, settle_actions,
}
use vaelmour_game.Rooms.Rounds.{
  lose_run, after_round, play_round, stop_run, resolve_room_round, submit_action, set_auto_battle,
  resolve_due, resolve_due_rounds,
}
use vaelmour_game.Rooms.Keeping.{Keeps, KeepsSome, Keeps-bind, Keeps-pure, Keeps-try_catch, steps}
use vaelmour_game.Rooms.Keeping.Laws.{Laws}
use vaelmour_game.Rooms.Keeping.Harmless.{
  with_expedition-IsHarmless, begun-IsHarmless, with_round-IsHarmless, with_rewards-IsHarmless,
  after_encounter-IsHarmless, with_extracted-IsHarmless, with_vote-IsHarmless,
  raise_index-IsHarmless, next_encounter-IsHarmless, with_phase-IsHarmless,
  with_submitted-IsHarmless, with_auto-IsHarmless, with_member_at-IsHarmless,
  set_resolving-IsHarmless, with_result-IsHarmless, stopped-IsHarmless, next_round-IsHarmless,
}
use vaelmour_game.Rooms.Keeping.Lobby.{
  reads, told-Keeps, take_draw-Keeps, now-Keeps, finalize_room-Keeps, require_profile-Keeps,
}

-- Steps that only read.
module _ (fl : Float) (setup : Setup fl.F) {I : Manager fl.F → Type 0} where
  pub floor_encounters-Keeps : (a b : ℕ) → Keeps I (floor_encounters setup a b)
  unfolding floor_encounters
  floor_encounters-Keeps a b = search (steps) depth 60

  pub create_enemy-Keeps : (a b i n : ℕ) → Keeps I (create_enemy fl setup a b i n)
  unfolding create_enemy
  create_enemy-Keeps a b i n = search (steps, floor_encounters-Keeps) depth 60

  pub check_unlocked-Keeps :
      (room : RoomState fl.F) (p : ℕ) → Keeps I (check_unlocked fl setup room p)
  unfolding check_unlocked
  check_unlocked-Keeps room p = search (steps, reads) depth 60

  pub check_present-Keeps : (room : RoomState fl.F) → Keeps I (check_present fl setup room)
  unfolding check_present
  check_present-Keeps room = search (steps) depth 60

  pub prepare-Keeps : (ids : List ℕ) → Keeps I (prepare fl setup ids)
  unfolding prepare
  prepare-Keeps [] = Keeps-pure []
  prepare-Keeps (id ∷ ids) =
      Keeps-bind (require_profile-Keeps id)
        (λ p. Keeps-bind (prepare-Keeps ids) (λ rest. Keeps-pure _))

module _ (fl : Float) (setup : Setup fl.F) {I : Manager fl.F → Type 0}
    {Open : RoomState fl.F → Type 0} {Fresh : ℕ → Type 0} (laws : Laws fl setup I Open Fresh) where
  start_round-Keeps : (k : ℕ) → Keeps I (start_round fl setup k)
  unfolding start_round
  start_round-Keeps k = search (steps, now-Keeps, laws.harmless, with_round-IsHarmless) depth 60

  send_off-Keeps : (m : ℕ × RoomMember) → Keeps I (send_off fl setup m)
  unfolding send_off
  send_off-Keeps m = search (steps, laws.available, laws.presence) depth 60

  depart-Keeps : (room : RoomState fl.F) (l k : ℕ) → Keeps I (depart fl setup room l k)
  unfolding depart
  depart-Keeps room l k =
      search
        (
          steps, laws.refunding, check_present-Keeps, prepare-Keeps, create_enemy-Keeps,
          laws.starting, laws.harmless, with_expedition-IsHarmless, begun-IsHarmless,
          send_off-Keeps,
        )
        depth 60

  pub start_expedition-Keeps : (p : ℕ) → Keeps I (start_expedition fl setup p)
  unfolding start_expedition
  start_expedition-Keeps p =
      search
        (
          steps, reads, check_present-Keeps, check_unlocked-Keeps, take_draw-Keeps, laws.harmless,
          with_expedition-IsHarmless, Keeps-try_catch, told-Keeps, depart-Keeps, start_round-Keeps,
        )
        depth 60

  extract_one-Keeps :
      (room : RoomState fl.F) (b : Bool) (p : ℕ) → Keeps I (extract_one setup room b p)
  unfolding extract_one
  extract_one-Keeps room b p = search (steps, reads, laws.extracting) depth 60

  pub extract_loot-Keeps : (k : ℕ) (b : Bool) → Keeps I (extract_loot setup k b)
  unfolding extract_loot
  extract_loot-Keeps k b =
      search (steps, reads, extract_one-Keeps, laws.harmless, with_extracted-IsHarmless) depth 60

  reward_member-Keeps :
      (room : RoomState fl.F) (d : EnemyDefinition fl.F) (l : Dict PersonalLoot)
      (m : ℕ × RoomMember)
      → Keeps I (reward_member setup room d l m)
  unfolding reward_member
  reward_member-Keeps room d l m =
      search (steps, reads, laws.identity, laws.awarding, laws.harmless, with_rewards-IsHarmless)
        depth 60

  complete_floors-Keeps : (room : RoomState fl.F) (n : ℕ) → Keeps I (complete_floors setup room n)
  unfolding complete_floors
  complete_floors-Keeps room n = search (steps, laws.completing) depth 60

  complete_encounter-Keeps : (room : RoomState fl.F) → Keeps I (complete_encounter fl setup room)
  unfolding complete_encounter
  complete_encounter-Keeps room =
      search
        (
          steps, floor_encounters-Keeps, laws.randoms, reward_member-Keeps, complete_floors-Keeps,
          laws.harmless, after_encounter-IsHarmless,
        )
        depth 60

  free_member-Keeps : (m : ℕ × RoomMember) → Keeps I (free_member m)
  unfolding free_member
  free_member-Keeps m = search (steps, laws.available, laws.presence) depth 60

  finish_run-Keeps : (room : RoomState fl.F) → Keeps I (finish_run fl setup room)
  unfolding finish_run
  finish_run-Keeps room =
      search
        (
          steps, laws.harmless, with_phase-IsHarmless, free_member-Keeps, extract_loot-Keeps,
          finalize_room-Keeps,
        )
        depth 60

  go_on-Keeps : (room : RoomState fl.F) → Keeps I (go_on fl setup room)
  unfolding go_on
  go_on-Keeps room =
      search
        (
          steps, laws.harmless, raise_index-IsHarmless, create_enemy-Keeps,
          next_encounter-IsHarmless, laws.presence, start_round-Keeps,
        )
        depth 60

  carry_out-Keeps :
      (room : RoomState fl.F) (v : ExpeditionVote) → Keeps I (carry_out fl setup room v)
  unfolding carry_out
  carry_out-Keeps room v =
      search (steps, floor_encounters-Keeps, finish_run-Keeps, go_on-Keeps) depth 60

  evaluate_votes-Keeps : (k : ℕ) → Keeps I (evaluate_votes fl setup k)
  unfolding evaluate_votes
  evaluate_votes-Keeps k = search (steps, reads, carry_out-Keeps) depth 60

  pub vote-Keeps : (p : ℕ) (v : ExpeditionVote) → Keeps I (vote fl setup p v)
  unfolding vote
  vote-Keeps p v =
      search (steps, reads, laws.harmless, with_vote-IsHarmless, evaluate_votes-Keeps) depth 60

  lacking-Keeps : (t : Thrown) → KeepsSome I (lacking fl setup t)
  lacking-Keeps (service Code.not_enough_items) = Keeps-pure false
  lacking-Keeps t = tt

  consume_potion-Keeps :
      (room : RoomState fl.F) (p item : ℕ) → Keeps I (consume_potion fl setup room p item)
  unfolding consume_potion
  consume_potion-Keeps room p item = search (Keeps-try_catch, laws.drinking, lacking-Keeps) depth 60

  drink_or_attack-Keeps :
      (room : RoomState fl.F) (p : ℕ) (a : CombatAction) (item : ℕ)
      → Keeps I (drink_or_attack fl setup room p a item)
  unfolding drink_or_attack
  drink_or_attack-Keeps room p a item =
      search (steps, consume_potion-Keeps, laws.harmless, with_member_at-IsHarmless) depth 60

  settle_action-Keeps :
      (room : RoomState fl.F) (p : ℕ) (a : CombatAction) → Keeps I (settle_action fl setup room p a)
  unfolding settle_action
  settle_action-Keeps room p a = search (steps, drink_or_attack-Keeps) depth 60

  settle_actions-Keeps :
      (room : RoomState fl.F) (as_planned : Dict CombatAction)
      → Keeps I (settle_actions fl setup room as_planned)
  unfolding settle_actions
  settle_actions-Keeps room [] = Keeps-pure []
  settle_actions-Keeps room ((id, a) ∷ as_planned) =
      Keeps-bind (settle_action-Keeps room id a)
        (λ settled. Keeps-bind (settle_actions-Keeps room as_planned) (λ rest. Keeps-pure _))

  lose_run-Keeps : (room : RoomState fl.F) → Keeps I (lose_run fl setup room)
  unfolding lose_run
  lose_run-Keeps room =
      search
        (
          steps, laws.harmless, stopped-IsHarmless, free_member-Keeps, extract_loot-Keeps,
          finalize_room-Keeps,
        )
        depth 60

  after_round-Keeps :
      (room : RoomState fl.F) (e : Enemy fl.F) → Keeps I (after_round fl setup room e)
  unfolding after_round
  after_round-Keeps room e =
      search
        (
          steps, lose_run-Keeps, complete_encounter-Keeps, laws.harmless, next_round-IsHarmless,
          start_round-Keeps,
        )
        depth 60

  play_round-Keeps : (room : RoomState fl.F) (e : Enemy fl.F) → Keeps I (play_round fl setup room e)
  unfolding play_round
  play_round-Keeps room e =
      search
        (
          steps, reads, settle_actions-Keeps, laws.harmless, with_result-IsHarmless, laws.randoms,
          after_round-Keeps,
        )
        depth 60

  stop_run-Keeps : (k : ℕ) (t : Thrown) → KeepsSome I (stop_run fl setup k t)
  unfolding stop_run
  stop_run-Keeps k t =
      search (steps, laws.harmless, stopped-IsHarmless, finalize_room-Keeps) depth 30

  pub resolve_room_round-Keeps : (k : ℕ) → Keeps I (resolve_room_round fl setup k)
  unfolding resolve_room_round
  resolve_room_round-Keeps k =
      search
        (
          steps, reads, laws.harmless, set_resolving-IsHarmless, Keeps-try_catch, play_round-Keeps,
          stop_run-Keeps,
        )
        depth 60

  pub submit_action-Keeps : (p : ℕ) (a : SubmittedAction) → Keeps I (submit_action fl setup p a)
  unfolding submit_action
  submit_action-Keeps p a =
      search (steps, reads, laws.harmless, with_submitted-IsHarmless, resolve_room_round-Keeps)
        depth 60

  pub set_auto_battle-Keeps : (p : ℕ) (b : Bool) → Keeps I (set_auto_battle fl setup p b)
  unfolding set_auto_battle
  set_auto_battle-Keeps p b =
      search (steps, reads, laws.harmless, with_auto-IsHarmless, resolve_room_round-Keeps) depth 60

  resolve_due-Keeps : (at : ℕ) (m : ℕ × RoomState fl.F) → Keeps I (resolve_due fl setup at m)
  unfolding resolve_due
  resolve_due-Keeps at m = search (steps, resolve_room_round-Keeps) depth 60

  pub resolve_due_rounds-Keeps : (at : ℕ) → Keeps I (resolve_due_rounds fl setup at)
  unfolding resolve_due_rounds
  resolve_due_rounds-Keeps at = search (steps, resolve_due-Keeps) depth 60
