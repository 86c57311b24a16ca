-- ===== src/Rooms/Keeping/Peers.antt =====
-- Connections of server/rooms/RoomManager.ts keep every invariant that satisfies the laws.
use vaelmour_game.Prelude.{ℕ, refl}
use vaelmour_game.Combat.Types.{Float, Character}
use vaelmour_game.Rooms.Types.{RoomMember, RoomState, Manager, Setup}
use vaelmour_game.Rooms.Peers.{
  change_member, change_applicant, drop_expired, has_expired, room_to_rejoin, connect,
  cancel_trades_for_disconnect, withdraw_application, mark_lost, disconnect, fail_deserted,
  handle_reconnect_expiry, sync_room, sync_lobby_character,
}
use vaelmour_game.Rooms.Keeping.{Keeps, Keeps-pure, Keeps-bind, Keeps-branch, steps}
use vaelmour_game.Prelude.{Option, none, some, false}
use vaelmour_game.Rooms.Keeping.Laws.{IsHarmless, IsHarmless-plain, Laws, has_key-change_at}
use vaelmour_game.Rooms.Keeping.Harmless.{with_phase-IsHarmless}
use vaelmour_game.Rooms.Keeping.Lobby.{
  reads, now-Keeps, finalize_room-Keeps, remove_expired_lobby_member-Keeps,
  without_application-IsHarmless, without_offer-IsHarmless,
}
use vaelmour_game.Rooms.Keeping.Runs.{extract_loot-Keeps}

module _ {F : Type 0} where
  change_member-IsHarmless :
      (p : ℕ) (f : RoomMember → RoomMember) → IsHarmless (change_member {F = F} p f)
  change_member-IsHarmless p f = record {
    same_id = λ r. refl;
    stays_started = λ r h. h;
    lets_none_in = λ r j h. has_key-change_at j p f r.members h;
  }

  change_applicant-IsHarmless : (p : ℕ) (c : Character) → IsHarmless (change_applicant {F = F} p c)
  change_applicant-IsHarmless p c = IsHarmless-plain (λ r. refl) (λ r. refl) (λ r. refl)

module _ (fl : Float) (setup : Setup fl.F) {I : Manager fl.F → Type 0}
    {Open : RoomState fl.F → Type 0} {Fresh : ℕ → Type 0} (laws : Laws fl setup I Open Fresh) where
  drop_expired-Keeps : (room : RoomState fl.F) (p : ℕ) → Keeps I (drop_expired setup room p)
  unfolding drop_expired
  drop_expired-Keeps room p =
      search
        (steps, remove_expired_lobby_member-Keeps fl setup laws, finalize_room-Keeps fl setup laws)
        depth 60

  has_expired-Keeps : (o : Option ℕ) → Keeps I (has_expired setup o)
  unfolding has_expired
  has_expired-Keeps none = Keeps-pure false
  has_expired-Keeps (some since) =
      Keeps-branch _ (Keeps-pure false) (Keeps-bind (now-Keeps fl setup laws) (λ at. Keeps-pure _))

  room_to_rejoin-Keeps : (p : ℕ) → Keeps I (room_to_rejoin setup p)
  unfolding room_to_rejoin
  room_to_rejoin-Keeps p = search (steps, reads, has_expired-Keeps, drop_expired-Keeps) depth 60

  pub connect-Keeps : (p : ℕ) (c : Character) (peer : ℕ) → Keeps I (connect setup p c peer)
  unfolding connect
  connect-Keeps p c peer =
      search
        (
          steps, room_to_rejoin-Keeps, laws.identity, laws.peer, laws.available, laws.presence,
          laws.harmless, change_member-IsHarmless,
        )
        depth 60

  cancel_trades_for_disconnect-Keeps : (p : ℕ) → Keeps I (cancel_trades_for_disconnect setup p)
  unfolding cancel_trades_for_disconnect
  cancel_trades_for_disconnect-Keeps p = search (steps, laws.cancelling) depth 60

  withdraw_application-Keeps :
      (p : ℕ) (m : ℕ × RoomState fl.F) → Keeps I (withdraw_application setup p m)
  unfolding withdraw_application
  withdraw_application-Keeps p m =
      search
        (
          steps, laws.harmless, without_application-IsHarmless, without_offer-IsHarmless,
          laws.refunding,
        )
        depth 60

  mark_lost-Keeps : (p : ℕ) → Keeps I (mark_lost setup p)
  unfolding mark_lost
  mark_lost-Keeps p =
      search (steps, reads, now-Keeps, laws.harmless, change_member-IsHarmless) depth 60

  pub disconnect-Keeps : (p c : ℕ) → Keeps I (disconnect setup p c)
  unfolding disconnect
  disconnect-Keeps p c =
      search
        (
          steps, reads, laws.no_peer, laws.available, laws.presence,
          cancel_trades_for_disconnect-Keeps, withdraw_application-Keeps, mark_lost-Keeps,
        )
        depth 60

  fail_deserted-Keeps : (room : RoomState fl.F) → Keeps I (fail_deserted setup room)
  unfolding fail_deserted
  fail_deserted-Keeps room =
      search (steps, laws.harmless, with_phase-IsHarmless, extract_loot-Keeps, finalize_room-Keeps)
        depth 60

  pub handle_reconnect_expiry-Keeps : (k p : ℕ) → Keeps I (handle_reconnect_expiry setup k p)
  unfolding handle_reconnect_expiry
  handle_reconnect_expiry-Keeps k p =
      search (steps, reads, now-Keeps, remove_expired_lobby_member-Keeps, fail_deserted-Keeps) depth
        60

  sync_room-Keeps :
      (p : ℕ) (c : Character) (m : ℕ × RoomState fl.F) → Keeps I (sync_room setup p c m)
  unfolding sync_room
  sync_room-Keeps p c m =
      search (steps, laws.harmless, change_member-IsHarmless, change_applicant-IsHarmless) depth 60

  pub sync_lobby_character-Keeps : (p : ℕ) → Keeps I (sync_lobby_character setup p)
  unfolding sync_lobby_character
  sync_lobby_character-Keeps p = search (steps, reads, laws.identity, sync_room-Keeps) depth 60
