-- ===== src/Rooms/Votes.antt =====
-- vote and evaluateVotes of server/rooms/RoomManager.ts.
use vaelmour_game.Prelude.{
  ℕ, suc, ◌/◌, Bool, true, false, not, ◌&&◌, ◌||◌, Option, none, some, List, [], ◌∷◌, ltb, leb,
  ◌==◌, if◌then◌else◌, keep, length,
}
use vaelmour_game.Prelude.Dict.{Dict, lookup, insert}
use vaelmour_game.Combat.Types.{Float, Enemy}
use vaelmour_game.Rooms.Handler.{
  Handler, Void, invalid_vote, silent, ◌>>=◌, ◌>>◌, fail_if, or_fail, for_each, call, branch,
}
use vaelmour_game.Rooms.Types.{
  RoomPhase, ExpeditionVote, PresenceStatus, RoomMember, RoomState, Manager, Setup,
}
use vaelmour_game.Rooms.Store.{
  has_key, keys_of, is_post_encounter, find_member_room, room_at, change_room, set_presence,
  put_availability, floor_encounters,
}
use vaelmour_game.Rooms.Leaving.{finalize_room}
use vaelmour_game.Rooms.Start.{create_enemy, start_round}
use vaelmour_game.Rooms.Rewards.{extract_loot}

abbrev pub is_continue : Option ExpeditionVote → Bool
is_continue none = false
is_continue (some ExpeditionVote.continue_run) = true
is_continue (some ExpeditionVote.exit_run) = false

abbrev pub is_exit : Option ExpeditionVote → Bool
is_exit none = false
is_exit (some ExpeditionVote.continue_run) = false
is_exit (some ExpeditionVote.exit_run) = true

abbrev pub all_of : {A : Type 0} → (A → Bool) → List A → Bool
all_of p [] = true
all_of p (x ∷ xs) = p x && all_of p xs

abbrev pub is_eligible : ℕ × RoomMember → Bool
is_eligible (_, m) = m.connected && m.character.alive

unfoldable pub eligible_voters : Dict RoomMember → List ℕ
eligible_voters members = keys_of (keep is_eligible members)

unfoldable pub count_votes : (Option ExpeditionVote → Bool) → Dict ExpeditionVote → List ℕ → ℕ
count_votes p votes voters = length (keep (λ id. p (lookup id votes)) voters)

-- `votes.get(leaderId) ?? 'EXIT'`
abbrev pub leader_choice : Option ExpeditionVote → ExpeditionVote
leader_choice none = ExpeditionVote.exit_run
leader_choice (some v) = v

-- The choice once all have voted.
abbrev pub settle_votes : ℕ → ℕ → Option ExpeditionVote → ExpeditionVote
settle_votes continues exits leader =
    if continues == exits
    then leader_choice leader
    else if ltb exits continues
    then ExpeditionVote.continue_run
    else ExpeditionVote.exit_run

-- `decision`, with `none` for no decision yet
unfoldable pub decision : Dict ExpeditionVote → List ℕ → ℕ → Option ExpeditionVote
decision votes voters leader_id =
    let continues = count_votes is_continue votes voters in
    let exits = count_votes is_exit votes voters in
    let majority = suc (length voters / 2) in
    if leb majority continues
    then some ExpeditionVote.continue_run
    else if leb majority exits
    then some ExpeditionVote.exit_run
    else if all_of (λ id. has_key id votes) voters
    then some (settle_votes continues exits (lookup leader_id votes))
    else none

module _ {F : Type 0} where
  abbrev pub with_vote : ℕ → ExpeditionVote → RoomState F → RoomState F
  with_vote player_id v room = record room { votes = insert player_id v room.votes }

  abbrev pub with_phase : RoomPhase → RoomState F → RoomState F
  with_phase phase room = record room { phase = phase }

  abbrev pub raise_index : RoomState F → RoomState F
  raise_index room = record room { encounter_index = suc room.encounter_index }

  abbrev pub next_encounter : Enemy F → RoomState F → RoomState F
  next_encounter enemy room = record room {
    enemy = some enemy;
    round = 1;
    votes = [];
    phase = RoomPhase.combat;
  }

  -- `presence.set(id, 'CITY')` and `economy.setAvailability(id, connected, false)`
  unfoldable pub free_member : ℕ × RoomMember → Handler (Manager F) Void
  free_member (id, m) = do
    set_presence id PresenceStatus.city
    put_availability id m.connected false

module _ (fl : Float) (setup : Setup fl.F) where
  open fl use {F}

  unfoldable pub finish_run : RoomState F → Handler (Manager F) Void
  finish_run room = do
    change_room room.id (with_phase RoomPhase.finished)
    for_each free_member room.members
    call (extract_loot setup room.id true)
    finalize_room room.id

  unfoldable pub go_on : RoomState F → Handler (Manager F) Void
  go_on room = do
    change_room room.id raise_index
    enemy ←
        create_enemy fl setup room.rift_id room.floor_number (suc room.encounter_index)
          (length room.members)
    change_room room.id (next_encounter enemy)
    for_each (λ id. set_presence id PresenceStatus.rift) (keys_of room.members)
    start_round fl setup room.id

  unfoldable pub carry_out : RoomState F → ExpeditionVote → Handler (Manager F) Void
  carry_out room choice = do
    encounters ← floor_encounters setup room.rift_id room.floor_number
    branch (is_exit (some choice) || leb (length encounters) (suc room.encounter_index))
        (finish_run room) (go_on room)

  unfoldable pub evaluate_votes : ℕ → Handler (Manager F) Void
  evaluate_votes room_id = do
    r ← room_at room_id
    room ← or_fail r silent
    choice ← or_fail (decision room.votes (eligible_voters room.members) room.leader_id) silent
    carry_out room choice

  abbrev pub may_vote : RoomState F → ℕ → RoomMember → Bool
  may_vote room player_id m =
      is_post_encounter room.phase
      && m.connected
      && (m.character.alive || (player_id == room.leader_id))

  unfoldable pub vote : ℕ → ExpeditionVote → Handler (Manager F) Void
  vote player_id v = do
    r ← find_member_room player_id
    room ← or_fail r invalid_vote
    member ← or_fail (lookup player_id room.members) invalid_vote
    fail_if (not (may_vote room player_id member)) invalid_vote
    change_room room.id (with_vote player_id v)
    evaluate_votes room.id
