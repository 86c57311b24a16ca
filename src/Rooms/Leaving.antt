-- ===== src/Rooms/Leaving.antt =====
-- leaveParty, removeExpiredLobbyMember, finalizeRoom and inviteToParty of server/rooms/RoomManager.ts.
use vaelmour_game.Prelude.{
  ℕ, ◌-◌, Bool, true, false, not, ◌||◌, Option, none, some, [], ◌∷◌, ◌++◌, ltb, ◌==◌, if◌then◌else◌,
  is_some,
}
use vaelmour_game.Prelude.Int.{pos}
use vaelmour_game.Prelude.Dict.{Dict, lookup, insert}
use vaelmour_game.Rooms.Handler.{
  Handler, Void, party_locked, party_invite_unavailable, silent, ◌>>=◌, ◌>>◌, pure, fail_if,
  or_fail, when, for_each, branch, if_some,
}
use vaelmour_game.Rooms.Types.{RoomPhase, PresenceStatus, RoomState, Manager, RefundReason, Setup}
use vaelmour_game.Rooms.Store.{
  keys_of, is_lobby, is_combat, is_post_encounter, find_member_room, room_at, peer_of, change_room,
  delete_room, set_presence, put_availability, now, refund_slot,
}
use vaelmour_game.Rooms.Lobby.{distinct, without_member, hand_lead, create_party}

abbrev pub is_over : RoomPhase → Bool
is_over p = elim p [ RoomPhase.finished ↦ true | RoomPhase.failed_run ↦ true | _ ↦ false ]

-- A run that is on: in combat, or voting after an encounter.
abbrev pub is_running : RoomPhase → Bool
is_running p = is_combat p || is_post_encounter p

abbrev pub is_empty : {V : Type 0} → Dict V → Bool
is_empty [] = true
is_empty (_ ∷ _) = false

-- `member.disconnectedAt` is `null` or 0, or the grace has not passed.
abbrev pub within_grace : ℕ → ℕ → Option ℕ → Bool
within_grace grace at none = true
within_grace grace at (some since) = (since == 0) || ltb (at - since) grace

module _ {F : Type 0} where
  abbrev pub with_no_offer : ℕ → RoomState F → RoomState F
  with_no_offer player_id room = record room {
    slot_offers = insert player_id (pos 0) room.slot_offers;
  }

  -- One member of a room that is over.
  unfoldable pub send_home : ℕ → Handler (Manager F) Void
  send_home player_id = do
    peer ← peer_of player_id
    put_availability player_id (is_some peer) false
    set_presence player_id (if is_some peer then PresenceStatus.city else PresenceStatus.offline)

  unfoldable pub finalize_room : ℕ → Handler (Manager F) Void
  finalize_room room_id = do
    r ← room_at room_id
    room ← or_fail r silent
    when (is_over room.phase) (for_each send_home (keys_of room.members) >> delete_room room_id)

  module _ (setup : Setup F) where
    -- The refund of one other player, when the leader leaves.
    unfoldable pub dismiss : ℕ → ℕ → ℕ → Handler (Manager F) Void
    dismiss room_id leader_id player_id = do
      when (not (player_id == leader_id))
          (refund_slot setup RefundReason.leader_left room_id player_id)
      change_room room_id (with_no_offer player_id)

    unfoldable pub leave_lobby : RoomState F → ℕ → Handler (Manager F) Void
    leave_lobby room player_id = do
      refund_slot setup RefundReason.leave room.id player_id
      when (room.leader_id == player_id) (
          for_each (dismiss room.id player_id)
            (distinct [] (keys_of room.members ++ keys_of room.applications)))

    unfoldable pub disband : RoomState F → Handler (Manager F) Void
    disband room =
        for_each (refund_slot setup RefundReason.disband room.id) (keys_of room.applications)
        >> delete_room room.id

    unfoldable pub leave_party : ℕ → Handler (Manager F) Void
    leave_party player_id = do
      r ← find_member_room player_id
      room ← or_fail r silent
      fail_if (is_running room.phase) party_locked
      when (is_lobby room.phase) (leave_lobby room player_id)
      change_room room.id (without_member player_id)
      set_presence player_id PresenceStatus.city
      r' ← room_at room.id
      left ← or_fail r' silent
      branch (is_empty left.members) (disband left) (change_room room.id (hand_lead player_id))

    -- The applications of a room that is left empty are not refunded here.
    unfoldable pub remove_expired_lobby_member : ℕ → ℕ → Handler (Manager F) Void
    remove_expired_lobby_member room_id player_id = do
      r ← room_at room_id
      room ← or_fail r silent
      fail_if (not (is_lobby room.phase)) silent
      member ← or_fail (lookup player_id room.members) silent
      fail_if (member.connected || not (is_some member.disconnected_at)) silent
      at ← now setup
      fail_if (within_grace setup.reconnect_grace_ms at member.disconnected_at) silent
      refund_slot setup RefundReason.expired room.id player_id
      change_room room.id (without_member player_id)
      r' ← room_at room.id
      left ← or_fail r' silent
      branch (is_empty left.members) (delete_room room.id)
          (change_room room.id (hand_lead player_id))

    -- The room that the inviter is in, or a new one; the message to the target changes nothing.
    unfoldable pub invite_to_party : ℕ → ℕ → Handler (Manager F) Void
    invite_to_party player_id target_id = do
      peer ← peer_of target_id
      fail_if (not (is_some peer)) party_invite_unavailable
      other ← find_member_room target_id
      fail_if (is_some other) party_invite_unavailable
      own ← find_member_room player_id
      if_some own (create_party setup player_id >>= λ _. pure tt)
          (λ room. fail_if (not (is_lobby room.phase)) party_locked)
