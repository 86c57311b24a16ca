-- ===== src/Rooms/Locked/Play.antt =====
-- A room of server/rooms/RoomManager.ts that runs, through histories of requests of the lobby.
use vaelmour_game.Prelude.{ℕ, ◌≡◌, ◌≢◌, refl, true, not, some, List, [], ◌∷◌, All}
use vaelmour_game.Prelude.Dict.{lookup}
use vaelmour_game.Combat.Types.{Float}
use vaelmour_game.Economy.Repository.{DurableExpeditionStart}
use vaelmour_game.Rooms.Handler.{modify}
use vaelmour_game.Rooms.Types.{RoomState, Manager, Setup}
use vaelmour_game.Rooms.Store.{is_lobby}
use vaelmour_game.Rooms.Leaving.{is_running}
use vaelmour_game.Rooms.Start.{start_paid, start_round, send_off, depart, start_expedition}
use vaelmour_game.Rooms.Events.{
  Event, leaves, starts, selects, applies, withdraws, reviews, readies, creates, syncs, invites,
  disconnects, expires, automates, submits, rounds_due, timer_fires, votes, connects, stops,
  requests, economy, react, play,
}
use vaelmour_game.Rooms.Keeping.{
  Keeps, Keeps-bind, Keeps-gets, Keeps-guard, Keeps-some, Keeps-fail_if, Keeps-for_each,
  Keeps-try_catch,
}
use vaelmour_game.Rooms.Keeping.Lobby.{told-Keeps}
use vaelmour_game.Rooms.Keeping.Runs.{
  create_enemy-Keeps, check_unlocked-Keeps, check_present-Keeps, prepare-Keeps,
}
use vaelmour_game.Rooms.Locked.{
  Stands, change_room-Stands, settle_start-Stands, set_presence-Stands, put_availability-Stands,
  take_draw-Stands, now-Stands, refund_slot-Stands, find_member_room-Stands,
}
use vaelmour_game.Rooms.Locked.Lobby.{
  lobby-other, leave_party-Stands, select_rift_floor-Stands, set_ready-Stands,
  apply_to_party-Stands, cancel_application-Stands, review_application-Stands,
}

-- The requests of the lobby, but for the creation of a room; and those of the economy.
abbrev pub IsOfLobby : Event → Type 0
IsOfLobby e = elim e [
  | leaves p ↦ Unit
  | starts p ↦ Unit
  | selects p rift floor ↦ Unit
  | applies p party coins op ↦ Unit
  | withdraws p party ↦ Unit
  | reviews l p accept ↦ Unit
  | readies p ready ↦ Unit
  | requests key request ↦ Unit
  | _ ↦ ⊥
]

module _ (fl : Float) (setup : Setup fl.F) (id : ℕ) (room : RoomState fl.F)
    (running : is_running room.phase ≡ true) (settled : room.applications ≡ []) where
  start_paid-Stands :
      (m : DurableExpeditionStart) (l : ℕ) (ms : List ℕ)
      → Keeps (Stands id room) (start_paid fl setup m l ms)
  unfolding start_paid
  start_paid-Stands m l ms = record { run = λ s h. settle_start-Stands id room s _ h }

  start_round-Stands : (k : ℕ) → k ≢ id → Keeps (Stands id room) (start_round fl setup k)
  unfolding start_round
  start_round-Stands k other =
      Keeps-bind (now-Stands id room setup) λ at. change_room-Stands id room k _ other (λ x. refl)

  depart-Stands :
      (r : RoomState fl.F) (l e : ℕ) → r.id ≢ id → Keeps (Stands id room) (depart fl setup r l e)
  unfolding depart send_off
  depart-Stands r l e other =
      Keeps-bind (Keeps-for_each _ (λ q. refund_slot-Stands id room setup _ r.id q)) λ _.
        Keeps-bind (check_present-Keeps fl setup r) λ _.
          Keeps-bind (prepare-Keeps fl setup _) λ prepared.
            Keeps-bind (create_enemy-Keeps fl setup _ _ _ _) λ enemy.
              Keeps-bind (start_paid-Stands _ l _) λ k.
                Keeps-bind (change_room-Stands id room r.id _ other (λ x. refl)) λ _.
                  Keeps-bind (change_room-Stands id room r.id _ other (λ x. refl)) λ _.
                    Keeps-for_each _ λ m.
                      Keeps-bind (put_availability-Stands id room _ _ _)
                        λ _. set_presence-Stands id room _ _

  start_expedition-Stands : (p : ℕ) → Keeps (Stands id room) (start_expedition fl setup p)
  unfolding start_expedition
  start_expedition-Stands p = Keeps-bind (Keeps-gets _) λ accepting.
      Keeps-bind (Keeps-fail_if _ _) λ _. find_member_room-Stands id room p _ λ o foreign.
        Keeps-some o _ _ λ r is. Keeps-bind (Keeps-fail_if _ _) λ _.
          Keeps-guard (not (is_lobby r.phase)) _ _ λ lobby.
            let other = lobby-other id room running settled r (foreign r is) lobby in
            Keeps-bind (Keeps-fail_if _ _) λ _. Keeps-bind (check_present-Keeps fl setup r) λ _.
              Keeps-bind (Keeps-fail_if _ _) λ _.
                Keeps-bind (Keeps-for_each _ (check_unlocked-Keeps fl setup r)) λ _.
                  Keeps-bind (take_draw-Stands id room) λ draw.
                    Keeps-bind (change_room-Stands id room r.id _ other (λ x. refl)) λ _.
                      Keeps-bind (Keeps-try_catch _ (depart-Stands r p _ other) (told-Keeps _ _))
                        λ _. start_round-Stands r.id other

  react-Stands : (e : Event) → IsOfLobby e → Keeps (Stands id room) (react fl setup e)
  unfolding react economy modify
  react-Stands (leaves p) h = leave_party-Stands id room running settled setup p
  react-Stands (starts p) h = start_expedition-Stands p
  react-Stands (selects p rift floor) h =
      select_rift_floor-Stands id room running settled setup p rift floor
  react-Stands (applies p party coins op) h =
      apply_to_party-Stands id room running settled setup p party coins op
  react-Stands (withdraws p party) h =
      cancel_application-Stands id room running settled setup p party
  react-Stands (reviews l p accept) h =
      review_application-Stands id room running settled setup l p accept
  react-Stands (readies p ready) h = set_ready-Stands id room running settled setup p ready
  react-Stands (requests key request) h = record { run = λ s i. i }
  react-Stands (creates p) h = absurd h
  react-Stands (syncs p) h = absurd h
  react-Stands (invites p target) h = absurd h
  react-Stands (disconnects p c) h = absurd h
  react-Stands (expires k p) h = absurd h
  react-Stands (automates p b) h = absurd h
  react-Stands (submits p a) h = absurd h
  react-Stands (rounds_due at) h = absurd h
  react-Stands (timer_fires k) h = absurd h
  react-Stands (votes p v) h = absurd h
  react-Stands (connects p c peer) h = absurd h
  react-Stands stops h = absurd h

  play-Stands :
      (es : List Event) (s : Manager fl.F)
      → All IsOfLobby es
      → Stands id room s
      → Stands id room (play fl setup es s)
  unfolding play
  play-Stands [] s all h = h
  play-Stands (e ∷ es) s all h = play-Stands es _ all.1 ((react-Stands e all.0).run s h)

-- Where every room stands under its identifier, and this one runs, is all that stands under its
-- identifier and has no applications left: no history of requests of the economy and of the lobby -
-- to leave, to start, to choose a floor, to apply, to withdraw, to review and to be ready - by
-- whomever, changes the room.
pub locked_while_running :
    (fl : Float) (setup : Setup fl.F) (s : Manager fl.F) (room : RoomState fl.F) (es : List Event)
    → Stands room.id room s
    → is_running room.phase ≡ true
    → room.applications ≡ []
    → All IsOfLobby es
    → lookup room.id (play fl setup es s).rooms ≡ some room
locked_while_running fl setup s room es stands running settled all =
    (play-Stands fl setup room.id room running settled es s all stands).1
