-- ===== src/Rooms/Peers.antt =====
-- connectResolved, disconnect, handleReconnectExpiry and syncLobbyCharacter of
-- server/rooms/RoomManager.ts.
use vaelmour_game.Prelude.{
  ℕ, ◌-◌, Bool, true, false, not, ◌&&◌, ◌||◌, Option, none, some, ltb, ◌==◌, any, if◌then◌else◌,
  is_some, keep,
}
use vaelmour_game.Prelude.Dict.{lookup, values}
use vaelmour_game.Combat.Types.{Character}
use vaelmour_game.Economy.Types.{DirectTrade, DirectTradeStatus, is_pending}
use vaelmour_game.Economy.Store.{is_participant}
use vaelmour_game.Economy.TradeEnd.{close_trade}
use vaelmour_game.Players.Profile.{to_character}
use vaelmour_game.Rooms.Handler.{
  Handler, Void, rift_reconnect_expired, silent, ◌>>=◌, ◌>>◌, pure, fail, fail_if, or_fail, gets,
  when, for_each, detached, call, branch, if_some,
}
use vaelmour_game.Rooms.Types.{
  RoomPhase, PresenceStatus, RoomMember, RoomState, Manager, RefundReason, Setup,
}
use vaelmour_game.Rooms.Store.{
  has_key, change_at, is_lobby, is_combat, is_post_encounter, find_member_room, room_at, peer_of,
  change_room, set_identity, set_peer, drop_peer, set_presence, put_availability, transact_economy,
  require_profile, now, refund_slot,
}
use vaelmour_game.Rooms.Lobby.{without_application, without_offer}
use vaelmour_game.Rooms.Leaving.{
  is_running, within_grace, finalize_room, remove_expired_lobby_member,
}
use vaelmour_game.Rooms.Rewards.{with_character, extract_loot}
use vaelmour_game.Rooms.Votes.{is_eligible, with_phase}

abbrev pub reconnected : ℕ → RoomMember → RoomMember
reconnected peer m = record m { connected = true; disconnected_at = none; peer = some peer }

abbrev pub lost : ℕ → RoomMember → RoomMember
lost at m = record m { connected = false; peer = none; disconnected_at = some at }

abbrev pub is_pending_of : ℕ → DirectTrade → Bool
is_pending_of player_id t = is_participant t player_id && is_pending t

abbrev pub left_since : Option RoomMember → Option ℕ
left_since none = none
left_since (some m) = m.disconnected_at

module _ {F : Type 0} where
  abbrev pub in_combat : Option (RoomState F) → Bool
  in_combat none = false
  in_combat (some room) = is_combat room.phase

  abbrev pub presence_in : Option (RoomState F) → PresenceStatus
  presence_in none = PresenceStatus.city
  presence_in (some room) =
      if is_lobby room.phase then PresenceStatus.party_lobby else PresenceStatus.rift

  abbrev pub change_member : ℕ → (RoomMember → RoomMember) → RoomState F → RoomState F
  change_member player_id f room = record room { members = change_at player_id f room.members }

  abbrev pub change_applicant : ℕ → Character → RoomState F → RoomState F
  change_applicant player_id c room = record room {
    applications = change_at player_id (λ _. c) room.applications;
  }

  -- `existingMember?.character ?? authenticated.character`
  abbrev pub known_character : ℕ → Character → Option (RoomState F) → Character
  known_character player_id c none = c
  known_character player_id c (some room) = elim (lookup player_id room.members) [
    | none ↦ c
    | some m ↦ m.character
  ]

  abbrev pub member_in : ℕ → Option (RoomState F) → Option RoomMember
  member_in player_id none = none
  member_in player_id (some room) = lookup player_id room.members

  module _ (setup : Setup F) where
    -- A room whose grace has passed: the lobby drops the player, a running expedition refuses the
    -- connection, and another room is closed.
    unfoldable pub drop_expired : RoomState F → ℕ → Handler (Manager F) Void
    drop_expired room player_id =
        branch (is_lobby room.phase) (call (remove_expired_lobby_member setup room.id player_id)) (
          branch (is_running room.phase) (fail rift_reconnect_expired)
            (call (finalize_room room.id)))

    -- `existingMember?.disconnectedAt && this.now() - existingMember.disconnectedAt > reconnectGraceMs`
    unfoldable pub has_expired : Option ℕ → Handler (Manager F) Bool
    has_expired none = pure false
    has_expired (some since) =
        branch (since == 0) (pure false)
          (do at ← now setup; pure (ltb setup.reconnect_grace_ms (at - since)))

    -- The room that the player comes back to, if there still is one.
    unfoldable pub room_to_rejoin : ℕ → Handler (Manager F) (Option (RoomState F))
    room_to_rejoin player_id = do
      r ← find_member_room player_id
      expired ← has_expired (left_since (member_in player_id r))
      if_some r (pure none)
          (λ room. branch expired (drop_expired room player_id >> pure none) (pure (some room)))

    -- The messages that the peer is sent change nothing.
    unfoldable pub connect : ℕ → Character → ℕ → Handler (Manager F) Void
    connect player_id authenticated peer = do
      room ← room_to_rejoin player_id
      set_identity player_id (known_character player_id authenticated room)
      set_peer player_id peer
      put_availability player_id true (in_combat room)
      set_presence player_id (presence_in room)
      if_some room (pure tt)
          (λ existing. change_room existing.id (change_member player_id (reconnected peer)))

    -- `economy.cancelTradesForDisconnect`
    unfoldable pub cancel_trades_for_disconnect : ℕ → Handler (Manager F) Void
    cancel_trades_for_disconnect player_id = do
      trades ← gets (λ s. keep (is_pending_of player_id) (values s.database.state.trades))
      for_each
          (λ t.
            transact_economy (setup.keys.cancel_trade player_id t.id)
              (close_trade setup.env player_id t.id DirectTradeStatus.cancelled))
          trades

    -- The loop over the rooms: an application goes, and its slot is refunded.
    unfoldable pub withdraw_application : ℕ → ℕ × RoomState F → Handler (Manager F) Void
    withdraw_application player_id (room_id, room) = when (has_key player_id room.applications) (
        change_room room_id (without_application player_id)
        >> (change_room room_id (without_offer player_id)
            >> detached (refund_slot setup RefundReason.disconnect_application room.id player_id)))

    unfoldable pub mark_lost : ℕ → Handler (Manager F) Void
    mark_lost player_id = do
      r ← find_member_room player_id
      room ← or_fail r silent
      at ← now setup
      change_room room.id (change_member player_id (lost at))

    unfoldable pub disconnect : ℕ → ℕ → Handler (Manager F) Void
    disconnect player_id connection_id = do
      p ← peer_of player_id
      peer ← or_fail p silent
      fail_if (not (peer == connection_id)) silent
      drop_peer player_id
      put_availability player_id false false
      set_presence player_id PresenceStatus.offline
      detached (cancel_trades_for_disconnect player_id)
      rooms ← gets (λ s. s.rooms)
      for_each (withdraw_application player_id) rooms
      mark_lost player_id

    unfoldable pub fail_deserted : RoomState F → Handler (Manager F) Void
    fail_deserted room = do
      change_room room.id (with_phase RoomPhase.failed_run)
      call (extract_loot setup room.id false)
      finalize_room room.id

    unfoldable pub handle_reconnect_expiry : ℕ → ℕ → Handler (Manager F) Void
    handle_reconnect_expiry room_id player_id = do
      r ← room_at room_id
      room ← or_fail r silent
      member ← or_fail (lookup player_id room.members) silent
      fail_if (member.connected || not (is_some member.disconnected_at)) silent
      at ← now setup
      fail_if (within_grace setup.reconnect_grace_ms at member.disconnected_at) silent
      branch (is_lobby room.phase) (remove_expired_lobby_member setup room_id player_id) (
          when (is_post_encounter room.phase && not (any is_eligible room.members))
            (fail_deserted room))

    -- One room of the loop of `syncLobbyCharacter`.
    unfoldable pub sync_room : ℕ → Character → ℕ × RoomState F → Handler (Manager F) Void
    sync_room player_id c (room_id, room) = do
      when (is_lobby room.phase) (change_room room_id (change_member player_id (with_character c)))
      change_room room_id (change_applicant player_id c)

    unfoldable pub sync_lobby_character : ℕ → Handler (Manager F) Void
    sync_lobby_character player_id = do
      p ← require_profile player_id
      let c = to_character setup.env.catalog p
      set_identity player_id c
      rooms ← gets (λ s. s.rooms)
      for_each (sync_room player_id c) rooms
