-- ===== src/Rooms/Events.antt =====
-- What happens to the manager of server/rooms/RoomManager.ts: the messages of `handle` that concern
-- rooms, connections and timers, and the requests of the economy. A handler runs to its end before
-- the next one.
use vaelmour_game.Prelude.{ℕ, Bool, List, [], ◌∷◌}
use vaelmour_game.Prelude.Int.{ℤ}
use vaelmour_game.Combat.Types.{Float, Character}
use vaelmour_game.Economy.Service.{Request, handle}
use vaelmour_game.Rooms.Handler.{Handler, Void, ◌>>=◌, pure, modify}
use vaelmour_game.Rooms.Types.{ExpeditionVote, Manager, Setup}
use vaelmour_game.Rooms.Store.{stop_accepting}
use vaelmour_game.Rooms.Lobby.{
  create_party, select_rift_floor, apply_to_party, cancel_application, review_application,
  set_ready,
}
use vaelmour_game.Rooms.Leaving.{leave_party, invite_to_party}
use vaelmour_game.Rooms.Start.{start_expedition}
use vaelmour_game.Rooms.Votes.{vote}
use vaelmour_game.Rooms.Battle.{SubmittedAction}
use vaelmour_game.Rooms.Rounds.{
  submit_action, set_auto_battle, resolve_due_rounds, resolve_room_round,
}
use vaelmour_game.Rooms.Peers.{connect, disconnect, handle_reconnect_expiry, sync_lobby_character}

-- The arguments of each method; `timer_fires` is the timer that `startRound` sets, for a room.
pub data Event : Type 0 where
  creates leaves starts syncs : ℕ → Event
  selects : ℕ → ℕ → ℕ → Event
  applies : ℕ → ℕ → ℤ → ℕ → Event
  withdraws invites disconnects expires : ℕ → ℕ → Event
  reviews : ℕ → ℕ → Bool → Event
  readies automates : ℕ → Bool → Event
  submits : ℕ → SubmittedAction → Event
  rounds_due timer_fires : ℕ → Event
  votes : ℕ → ExpeditionVote → Event
  connects : ℕ → Character → ℕ → Event
  stops : Event
  requests : ℕ → Request → Event

module _ (fl : Float) (setup : Setup fl.F) where
  open fl use {F}

  unfoldable pub economy : ℕ → Request → Handler (Manager F) Void
  economy key request =
      modify (λ s. record s { database = handle setup.env key request s.database })

  unfoldable pub react : Event → Handler (Manager F) Void
  react (creates p) = create_party setup p >>= λ _. pure tt
  react (leaves p) = leave_party setup p
  react (starts p) = start_expedition fl setup p
  react (syncs p) = sync_lobby_character setup p
  react (selects p rift floor) = select_rift_floor setup p rift floor
  react (applies p party coins op) = apply_to_party setup p party coins op
  react (withdraws p party) = cancel_application setup p party
  react (invites p target) = invite_to_party setup p target
  react (disconnects p connection) = disconnect setup p connection
  react (expires room p) = handle_reconnect_expiry setup room p
  react (reviews leader applicant accept) = review_application setup leader applicant accept
  react (readies p ready) = set_ready p ready
  react (automates p enabled) = set_auto_battle fl setup p enabled
  react (submits p a) = submit_action fl setup p a
  react (rounds_due at) = resolve_due_rounds fl setup at
  react (timer_fires room) = resolve_room_round fl setup room
  react (votes p v) = vote fl setup p v
  react (connects p c peer) = connect setup p c peer
  react stops = stop_accepting
  react (requests key request) = economy key request

  -- The manager after a history of events, however each of them ends.
  unfoldable pub play : List Event → Manager F → Manager F
  play [] s = s
  play (e ∷ es) s = play es (react e s).1
