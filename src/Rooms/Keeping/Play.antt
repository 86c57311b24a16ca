-- ===== src/Rooms/Keeping/Play.antt =====
-- Every history of events of server/rooms/RoomManager.ts keeps every invariant that satisfies the laws.
use vaelmour_game.Prelude.{ℕ, List, [], ◌∷◌}
use vaelmour_game.Combat.Types.{Float}
use vaelmour_game.Rooms.Types.{RoomState, Manager, Setup}
use vaelmour_game.Rooms.Events.{
  Event, creates, leaves, starts, syncs, selects, applies, withdraws, invites, disconnects, expires,
  reviews, readies, automates, submits, rounds_due, timer_fires, votes, connects, stops, requests,
  react, play,
}
use vaelmour_game.Rooms.Keeping.{Keeps, Keeps-bind, Keeps-pure}
use vaelmour_game.Rooms.Keeping.Laws.{Laws}
use vaelmour_game.Rooms.Keeping.Lobby.{
  create_party-Keeps, select_rift_floor-Keeps, apply_to_party-Keeps, cancel_application-Keeps,
  review_application-Keeps, set_ready-Keeps, leave_party-Keeps, invite_to_party-Keeps,
}
use vaelmour_game.Rooms.Keeping.Runs.{
  start_expedition-Keeps, vote-Keeps, resolve_room_round-Keeps, submit_action-Keeps,
  set_auto_battle-Keeps, resolve_due_rounds-Keeps,
}
use vaelmour_game.Rooms.Keeping.Peers.{
  connect-Keeps, disconnect-Keeps, handle_reconnect_expiry-Keeps, sync_lobby_character-Keeps,
}

module _ (fl : Float) (setup : Setup fl.F) {I : Manager fl.F → Type 0}
    {Open : RoomState fl.F → Type 0} {Fresh : ℕ → Type 0} (laws : Laws fl setup I Open Fresh) where
  react-Keeps : (e : Event) → Keeps I (react fl setup e)
  unfolding react
  react-Keeps (creates p) = Keeps-bind (create_party-Keeps fl setup laws p) (λ _. Keeps-pure tt)
  react-Keeps (leaves p) = leave_party-Keeps fl setup laws p
  react-Keeps (starts p) = start_expedition-Keeps fl setup laws p
  react-Keeps (syncs p) = sync_lobby_character-Keeps fl setup laws p
  react-Keeps (selects p rift floor) = select_rift_floor-Keeps fl setup laws p rift floor
  react-Keeps (applies p party coins op) = apply_to_party-Keeps fl setup laws p party coins op
  react-Keeps (withdraws p party) = cancel_application-Keeps fl setup laws p party
  react-Keeps (invites p target) = invite_to_party-Keeps fl setup laws p target
  react-Keeps (disconnects p c) = disconnect-Keeps fl setup laws p c
  react-Keeps (expires k p) = handle_reconnect_expiry-Keeps fl setup laws k p
  react-Keeps (reviews l p accept) = review_application-Keeps fl setup laws l p accept
  react-Keeps (readies p ready) = set_ready-Keeps fl setup laws p ready
  react-Keeps (automates p b) = set_auto_battle-Keeps fl setup laws p b
  react-Keeps (submits p a) = submit_action-Keeps fl setup laws p a
  react-Keeps (rounds_due at) = resolve_due_rounds-Keeps fl setup laws at
  react-Keeps (timer_fires k) = resolve_room_round-Keeps fl setup laws k
  react-Keeps (votes p v) = vote-Keeps fl setup laws p v
  react-Keeps (connects p c peer) = connect-Keeps fl setup laws p c peer
  react-Keeps stops = laws.closing
  react-Keeps (requests key r) = laws.requesting key r

  -- An invariant that satisfies the laws holds after any history.
  pub play_keeps : (es : List Event) (s : Manager fl.F) → I s → I (play fl setup es s)
  unfolding play
  play_keeps [] s i = i
  play_keeps (e ∷ es) s i = play_keeps es _ ((react-Keeps e).run s i)
