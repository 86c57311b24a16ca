-- ===== src/Rooms/Lobby.antt =====
-- The lobby of server/rooms/RoomManager.ts: createParty, selectRiftFloor, applyToParty,
-- cancelApplication, reviewApplication, leaveParty, setReady, inviteToParty, removeExpiredLobbyMember.
use vaelmour_game.Prelude.{
  ℕ, Bool, true, false, not, ◌&&◌, Option, none, some, List, [], ◌∷◌, ltb, leb, ◌==◌, if◌then◌else◌,
  is_some, length,
}
use vaelmour_game.Prelude.Int.{ℤ, pos}
use vaelmour_game.Prelude.Dict.{Dict, lookup, insert, erase, values}
use vaelmour_game.Data.{includes}
use vaelmour_game.Combat.Types.{Character}
use vaelmour_game.Economy.Monad.{Error}
use vaelmour_game.Rooms.Handler.{
  Handler, Void, Thrown, economy, server_shutting_down, already_in_party, leader_only, party_locked,
  invalid_floor, floor_locked, party_not_found, party_full, application_not_found, invalid_state,
  silent, economy_error, service, service_error, ◌>>=◌, ◌>>◌, pure, fail, fail_if, or_fail, gets,
  when, for_each, try_catch, branch,
}
use vaelmour_game.Rooms.Types.{
  RoomPhase, PresenceStatus, RoomMember, RoomState, Manager, RefundReason, Setup,
}
use vaelmour_game.Rooms.Store.{
  has_key, map_values, is_lobby, find_member_room, room_at, identity, peer_of, change_room,
  put_room, set_presence, take_draw, rift_progress, reserve_slot, accept_slot, refund_slot,
  floor_definition,
}

abbrev pub max_party_size : ℕ
max_party_size = 5

-- `createMember`
unfoldable pub create_member : Character → RoomMember
create_member c = record {
  character = c;
  connected = true;
  peer = none;
  ready = false;
  auto_battle = false;
  potion_cooldown = 0;
  expedition_potions = pos 0;
  expedition_potion_quantities = [];
  disconnected_at = none;
}

-- `[...members.keys(), ...applications.keys()]` through a `Set`
unfoldable pub distinct : List ℕ → List ℕ → List ℕ
distinct seen [] = []
distinct seen (x ∷ xs) =
    let rest = distinct (x ∷ seen) xs in if includes seen x then rest else x ∷ rest

-- `members.keys().next().value`, where there is one
abbrev pub first_key : {V : Type 0} → ℕ → Dict V → ℕ
first_key id [] = id
first_key id ((k, _) ∷ _) = k

-- `error instanceof EconomyError`: not the read of a field of `undefined`.
abbrev pub is_economy_error : Error → Bool
is_economy_error e = elim e [ Error.type_error ↦ false | Error.fuel ↦ false | _ ↦ true ]

-- `catch (error) { if (error instanceof EconomyError) { this.fail(...) } else throw error }`
unfoldable pub told : {S A : Type 0} → Thrown → Option (Handler S A)
told (economy e) = if is_economy_error e then some (fail (economy_error e)) else none
told (service c) = some (fail (service_error c))
told _ = none

abbrev pub unready : RoomMember → RoomMember
unready m = record m { ready = false }

module _ {F : Type 0} where
  abbrev pub new_room : ℕ → ℕ → ℕ → RoomMember → RoomState F
  new_room room_id rift_id player_id member = record {
    id = room_id;
    expedition_id = none;
    phase = RoomPhase.lobby;
    leader_id = player_id;
    rift_id = rift_id;
    floor_number = 1;
    members = (player_id, member) ∷ [];
    applications = [];
    slot_offers = (player_id, pos 0) ∷ [];
    encounter_index = 0;
    enemy = none;
    round = 0;
    round_ends_at = none;
    actions = [];
    expedition_loot = [];
    extracted = false;
    votes = [];
    resolving = false;
  }

  abbrev pub with_floor : ℕ → ℕ → RoomState F → RoomState F
  with_floor rift_id floor_number room = record room {
    rift_id = rift_id;
    floor_number = floor_number;
    members = map_values unready room.members;
  }

  abbrev pub with_application : ℕ → Character → ℤ → RoomState F → RoomState F
  with_application player_id c coins room = record room {
    applications = insert player_id c room.applications;
    slot_offers = insert player_id coins room.slot_offers;
  }

  abbrev pub without_application : ℕ → RoomState F → RoomState F
  without_application player_id room = record room {
    applications = erase player_id room.applications;
  }

  abbrev pub without_offer : ℕ → RoomState F → RoomState F
  without_offer player_id room = record room { slot_offers = erase player_id room.slot_offers }

  abbrev pub without_member : ℕ → RoomState F → RoomState F
  without_member player_id room = record room {
    slot_offers = erase player_id room.slot_offers;
    members = erase player_id room.members;
  }

  -- `if (room.leaderId === playerId) room.leaderId = room.members.keys().next().value`
  abbrev pub hand_lead : ℕ → RoomState F → RoomState F
  hand_lead player_id room = record room {
    leader_id =
        if room.leader_id == player_id
        then first_key room.leader_id room.members
        else room.leader_id;
  }

  abbrev pub with_member : ℕ → Character → Option ℕ → RoomState F → RoomState F
  with_member player_id c peer room = record room {
    members =
        insert player_id (record (create_member c) { peer = peer; connected = is_some peer })
          room.members;
  }

  abbrev pub set_member_ready : ℕ → Bool → RoomMember → RoomState F → RoomState F
  set_member_ready player_id ready m room = record room {
    members = insert player_id (record m { ready = ready }) room.members;
  }

  unfoldable pub set_ready : ℕ → Bool → Handler (Manager F) Void
  set_ready player_id ready = do
    r ← find_member_room player_id
    room ← or_fail r invalid_state
    member ← or_fail (lookup player_id room.members) invalid_state
    fail_if (not (is_lobby room.phase)) invalid_state
    change_room room.id (set_member_ready player_id ready member)

  module _ (setup : Setup F) where
    unfoldable pub create_party : ℕ → Handler (Manager F) ℕ
    create_party player_id = do
      accepting ← gets (λ s. s.accepting)
      fail_if (not accepting) server_shutting_down
      old ← find_member_room player_id
      fail_if (is_some old) already_in_party
      c ← identity player_id
      character ← or_fail c silent
      draw ← take_draw
      peer ← peer_of player_id
      let room_id = setup.room_id draw
      put_room (
          new_room room_id setup.first_rift player_id
            (record (create_member character) { peer = peer }))
      set_presence player_id PresenceStatus.party_lobby
      pure room_id

    unfoldable pub select_rift_floor : ℕ → ℕ → ℕ → Handler (Manager F) Void
    select_rift_floor player_id rift_id floor_number = do
      r ← find_member_room player_id
      room ← or_fail r leader_only
      fail_if (not (room.leader_id == player_id)) leader_only
      fail_if (not (is_lobby room.phase)) party_locked
      fail_if (not (is_some (floor_definition setup rift_id floor_number))) invalid_floor
      progress ← rift_progress setup player_id rift_id
      fail_if (ltb progress.highest_unlocked_floor floor_number) floor_locked
      change_room room.id (with_floor rift_id floor_number)

    unfoldable pub apply_to_party : ℕ → ℕ → ℤ → ℕ → Handler (Manager F) Void
    apply_to_party player_id party_id coins operation_id = do
      r ← room_at party_id
      c ← identity player_id
      room ← or_fail r party_not_found
      character ← or_fail c party_not_found
      fail_if (not (is_lobby room.phase)) party_locked
      old ← find_member_room player_id
      fail_if (is_some old) already_in_party
      fail_if (leb max_party_size (length room.members)) party_full
      try_catch (reserve_slot setup room.id player_id room.leader_id coins operation_id) told
      change_room room.id (with_application player_id character coins)

    unfoldable pub cancel_application : ℕ → ℕ → Handler (Manager F) Void
    cancel_application player_id party_id = do
      r ← room_at party_id
      room ← or_fail r silent
      fail_if (not (has_key player_id room.applications)) silent
      change_room room.id (without_application player_id)
      refund_slot setup RefundReason.cancel_application room.id player_id
      change_room room.id (without_offer player_id)

    -- The loop over the other rooms.
    unfoldable pub withdraw_from : ℕ → ℕ → RoomState F → Handler (Manager F) Void
    withdraw_from room_id applicant_id other =
        when (not (other.id == room_id) && has_key applicant_id other.applications) (
          change_room other.id (without_application applicant_id)
          >> (refund_slot setup RefundReason.accepted_elsewhere other.id applicant_id
              >> change_room other.id (without_offer applicant_id)))

    unfoldable pub accept_applicant : RoomState F → ℕ → ℕ → Character → Handler (Manager F) Void
    accept_applicant room leader_id applicant_id character = do
      accept_slot setup room.id applicant_id leader_id
      peer ← peer_of applicant_id
      change_room room.id (with_member applicant_id character peer)
      set_presence applicant_id PresenceStatus.party_lobby
      rooms ← gets (λ s. values s.rooms)
      for_each (withdraw_from room.id applicant_id) rooms

    unfoldable pub reject_applicant : RoomState F → ℕ → Handler (Manager F) Void
    reject_applicant room applicant_id = do
      refund_slot setup RefundReason.reject room.id applicant_id
      change_room room.id (without_offer applicant_id)

    unfoldable pub review_application : ℕ → ℕ → Bool → Handler (Manager F) Void
    review_application leader_id applicant_id accept = do
      r ← find_member_room leader_id
      room ← or_fail r leader_only
      fail_if (not (room.leader_id == leader_id)) leader_only
      fail_if (not (is_lobby room.phase)) party_locked
      character ← or_fail (lookup applicant_id room.applications) application_not_found
      fail_if (accept && leb max_party_size (length room.members)) party_full
      change_room room.id (without_application applicant_id)
      branch accept (accept_applicant room leader_id applicant_id character)
          (reject_applicant room applicant_id)
