-- ===== src/Rooms/Keeping/Lobby.antt =====
-- The handlers of the lobby of server/rooms/RoomManager.ts keep every invariant that satisfies the laws.
use vaelmour_game.Prelude.{Bool-cases, inl, inr, ℕ, ◌≡◌, refl, Bool, true, false, not, Option, some}
use vaelmour_game.Prelude.Int.{ℤ}
use vaelmour_game.Combat.Types.{Float, Character}
use vaelmour_game.Rooms.Handler.{Handler, ◌>>=◌, Thrown, economy, service}
use vaelmour_game.Rooms.Types.{RoomState, Manager, Setup}
use vaelmour_game.Rooms.Store.{
  find_member_room, room_at, identity, peer_of, require_profile, rift_progress, is_lobby, take_draw,
  now,
}
use vaelmour_game.Rooms.Lobby.{
  create_party, with_floor, select_rift_floor, with_application, apply_to_party,
  without_application, without_offer, cancel_application, withdraw_from, accept_applicant,
  reject_applicant, review_application, set_member_ready, set_ready, told, is_economy_error,
  without_member, hand_lead, with_member,
}
use vaelmour_game.Rooms.Leaving.{
  with_no_offer, dismiss, leave_lobby, disband, leave_party, remove_expired_lobby_member, send_home,
  finalize_room, invite_to_party,
}
use vaelmour_game.Rooms.Keeping.{
  Keeps, KeepsSome, Keeps-bind, Keeps-pure, Keeps-gets, Keeps-fail, Keeps-fail_if, Keeps-try_catch,
  Keeps-guard, Keeps-known, Keeps-some, Keeps-or_throw, Keeps-or_fail, steps,
}
use vaelmour_game.Rooms.Keeping.Laws.{
  IsHarmless, IsHarmless-plain, Laws, has_key-erase, has_key-map_values,
}

pub find_member_room-Keeps :
    {F : Type 0} {I : Manager F → Type 0} (p : ℕ) → Keeps I (find_member_room p)
unfolding find_member_room
find_member_room-Keeps p = Keeps-gets _

pub room_at-Keeps : {F : Type 0} {I : Manager F → Type 0} (p : ℕ) → Keeps I (room_at p)
unfolding room_at
room_at-Keeps p = Keeps-gets _

pub identity-Keeps : {F : Type 0} {I : Manager F → Type 0} (p : ℕ) → Keeps I (identity p)
unfolding identity
identity-Keeps p = Keeps-gets _

pub peer_of-Keeps : {F : Type 0} {I : Manager F → Type 0} (p : ℕ) → Keeps I (peer_of p)
unfolding peer_of
peer_of-Keeps p = Keeps-gets _

pub require_profile-Keeps :
    {F : Type 0} {I : Manager F → Type 0} (p : ℕ) → Keeps I (require_profile p)
unfolding require_profile
require_profile-Keeps p = Keeps-bind (Keeps-gets _) (λ o. Keeps-or_throw o _)

pub rift_progress-Keeps :
    {F : Type 0} {I : Manager F → Type 0} (setup : Setup F) (p rift : ℕ)
    → Keeps I (rift_progress setup p rift)
unfolding rift_progress
rift_progress-Keeps setup p rift = Keeps-bind (require_profile-Keeps p) (λ _. Keeps-pure _)

pub ruleset reads = (
  find_member_room-Keeps, room_at-Keeps, identity-Keeps, peer_of-Keeps, require_profile-Keeps,
  rift_progress-Keeps,
)

pub told-Keeps :
    {F : Type 0} (A : Type 0) (I : Manager F → Type 0) (t : Thrown) → KeepsSome I (told {A = A} t)
unfolding told
told-Keeps A I (economy e) = elim (Bool-cases (is_economy_error e)) [
  | inl hit ↦ rw hit (Keeps-fail _)
  | inr miss ↦ rw miss tt
]
told-Keeps A I (service c) = Keeps-fail _
told-Keeps A I Thrown.no_player = tt
told-Keeps A I Thrown.marker_missing = tt
told-Keeps A I Thrown.unknown_floor = tt
told-Keeps A I Thrown.unknown_enemy = tt
told-Keeps A I Thrown.type_error = tt
told-Keeps A I Thrown.out_of_rounds = tt

pub not-false : (b : Bool) → not b ≡ false → b ≡ true
not-false true h = refl
not-false false h = cc

module _ {F : Type 0} where
  with_floor-IsHarmless : (rift floor : ℕ) → IsHarmless (with_floor {F = F} rift floor)
  with_floor-IsHarmless rift floor = record {
    same_id = λ r. refl;
    stays_started = λ r h. h;
    lets_none_in = λ r j h. has_key-map_values j _ r.members h;
  }

  pub without_member-IsHarmless : (p : ℕ) → IsHarmless (without_member {F = F} p)
  without_member-IsHarmless p = record {
    same_id = λ r. refl;
    stays_started = λ r h. h;
    lets_none_in = λ r j h. has_key-erase j p r.members h;
  }

  with_application-IsHarmless :
      (p : ℕ) (c : Character) (n : ℤ) → IsHarmless (with_application {F = F} p c n)
  with_application-IsHarmless p c n = IsHarmless-plain (λ r. refl) (λ r. refl) (λ r. refl)

  pub without_application-IsHarmless : (p : ℕ) → IsHarmless (without_application {F = F} p)
  without_application-IsHarmless p = IsHarmless-plain (λ r. refl) (λ r. refl) (λ r. refl)

  pub without_offer-IsHarmless : (p : ℕ) → IsHarmless (without_offer {F = F} p)
  without_offer-IsHarmless p = IsHarmless-plain (λ r. refl) (λ r. refl) (λ r. refl)

  with_no_offer-IsHarmless : (p : ℕ) → IsHarmless (with_no_offer {F = F} p)
  with_no_offer-IsHarmless p = IsHarmless-plain (λ r. refl) (λ r. refl) (λ r. refl)

  hand_lead-IsHarmless : (p : ℕ) → IsHarmless (hand_lead {F = F} p)
  hand_lead-IsHarmless p = IsHarmless-plain (λ r. refl) (λ r. refl) (λ r. refl)

module _ (fl : Float) (setup : Setup fl.F) {I : Manager fl.F → Type 0}
    {Open : RoomState fl.F → Type 0} {Fresh : ℕ → Type 0} (laws : Laws fl setup I Open Fresh) where
  pub take_draw-Keeps : Keeps I take_draw
  take_draw-Keeps = laws.drawing

  pub now-Keeps : Keeps I (now setup)
  now-Keeps = laws.clock

  pub create_party-Keeps : (p : ℕ) → Keeps I (create_party setup p)
  unfolding create_party
  create_party-Keeps p = Keeps-bind (Keeps-gets _) λ accepting. Keeps-bind (Keeps-fail_if _ _) λ _.
      Keeps-bind (find_member_room-Keeps p) λ old. Keeps-bind (Keeps-fail_if _ _) λ _.
        Keeps-bind (identity-Keeps p) λ c. Keeps-bind (Keeps-or_fail c _) λ character.
          laws.drawing_fresh _ λ draw fresh. Keeps-bind (peer_of-Keeps p) λ peer.
            Keeps-bind (laws.creating draw p _ fresh)
              λ _. Keeps-bind (laws.presence p _) λ _. Keeps-pure _

  pub select_rift_floor-Keeps : (p rift floor : ℕ) → Keeps I (select_rift_floor setup p rift floor)
  unfolding select_rift_floor
  select_rift_floor-Keeps p rift floor =
      search (steps, reads, laws.harmless, with_floor-IsHarmless) depth 30

  pub apply_to_party-Keeps :
      (p party : ℕ) (n : ℤ) (op : ℕ) → Keeps I (apply_to_party setup p party n op)
  unfolding apply_to_party
  apply_to_party-Keeps p party n op =
      search
        (
          steps, reads, Keeps-try_catch, told-Keeps, laws.reserving, laws.harmless,
          with_application-IsHarmless,
        )
        depth 60

  pub cancel_application-Keeps : (p party : ℕ) → Keeps I (cancel_application setup p party)
  unfolding cancel_application
  cancel_application-Keeps p party =
      search
        (
          steps, reads, laws.refunding, laws.harmless, without_application-IsHarmless,
          without_offer-IsHarmless,
        )
        depth 60

  withdraw_from-Keeps : (k p : ℕ) (room : RoomState fl.F) → Keeps I (withdraw_from setup k p room)
  unfolding withdraw_from
  withdraw_from-Keeps k p room =
      search
        (
          steps, reads, laws.refunding, laws.harmless, without_application-IsHarmless,
          without_offer-IsHarmless,
        )
        depth 60

  accept_applicant-Keeps :
      (room : RoomState fl.F) (l p : ℕ) (c : Character)
      → Open room
      → Keeps I (accept_applicant setup room l p c)
  unfolding accept_applicant
  accept_applicant-Keeps room l p c open_room = Keeps-bind (laws.accepting room.id p l) λ _.
      Keeps-bind (peer_of-Keeps p) λ peer.
        Keeps-bind (laws.opening room (with_member p c peer) open_room (λ r. refl))
          λ _. search (steps, laws.presence, withdraw_from-Keeps) depth 30

  reject_applicant-Keeps : (room : RoomState fl.F) (p : ℕ) → Keeps I (reject_applicant setup room p)
  unfolding reject_applicant
  reject_applicant-Keeps room p =
      search (steps, laws.refunding, laws.harmless, without_offer-IsHarmless) depth 30

  disband-Keeps : (room : RoomState fl.F) → Keeps I (disband setup room)
  unfolding disband
  disband-Keeps room = search (steps, laws.refunding, laws.deleting) depth 30

  dismiss-Keeps : (k l p : ℕ) → Keeps I (dismiss setup k l p)
  unfolding dismiss
  dismiss-Keeps k l p =
      search (steps, laws.refunding, laws.harmless, with_no_offer-IsHarmless) depth 30

  leave_lobby-Keeps : (room : RoomState fl.F) (p : ℕ) → Keeps I (leave_lobby setup room p)
  unfolding leave_lobby
  leave_lobby-Keeps room p = search (steps, laws.refunding, dismiss-Keeps) depth 30

  pub leave_party-Keeps : (p : ℕ) → Keeps I (leave_party setup p)
  unfolding leave_party
  leave_party-Keeps p =
      search
        (
          steps, reads, leave_lobby-Keeps, disband-Keeps, laws.presence, laws.harmless,
          without_member-IsHarmless, hand_lead-IsHarmless,
        )
        depth 60

  pub remove_expired_lobby_member-Keeps :
      (k p : ℕ) → Keeps I (remove_expired_lobby_member setup k p)
  unfolding remove_expired_lobby_member
  remove_expired_lobby_member-Keeps k p =
      search
        (
          steps, reads, now-Keeps, laws.refunding, laws.deleting, laws.harmless,
          without_member-IsHarmless, hand_lead-IsHarmless,
        )
        depth 60

  send_home-Keeps : (p : ℕ) → Keeps I (send_home p)
  unfolding send_home
  send_home-Keeps p = search (steps, reads, laws.available, laws.presence) depth 30

  pub finalize_room-Keeps : (k : ℕ) → Keeps I (finalize_room k)
  unfolding finalize_room
  finalize_room-Keeps k = search (steps, reads, send_home-Keeps, laws.deleting) depth 30

  pub invite_to_party-Keeps : (p target : ℕ) → Keeps I (invite_to_party setup p target)
  unfolding invite_to_party
  invite_to_party-Keeps p target = search (steps, reads, create_party-Keeps) depth 60

  -- What a read of the room of a player tells of it, where it is in the lobby.
  abbrev Openly : Option (RoomState fl.F) → Type 0
  Openly r = (room : RoomState fl.F) → r ≡ some room → is_lobby room.phase ≡ true → Open room

  -- A handler that goes on with the room of a player, known to be open in the lobby.
  find_member_room-Openly :
      {A : Type 0} (p : ℕ) (f : Option (RoomState fl.F) → Handler (Manager fl.F) A)
      → ((r : Option (RoomState fl.F)) → Openly r → Keeps I (f r))
      → Keeps I (find_member_room p >>= f)
  unfolding find_member_room
  find_member_room-Openly p f h =
      Keeps-known Openly _ f (λ s i room e lobby. laws.found_open s p room i e lobby) h

  pub review_application-Keeps :
      (l p : ℕ) (accept : Bool) → Keeps I (review_application setup l p accept)
  unfolding review_application
  review_application-Keeps l p accept = find_member_room-Openly l _ λ r known.
      Keeps-some r _ _ λ room is. Keeps-bind (Keeps-fail_if _ _) λ _.
        Keeps-guard (not (is_lobby room.phase)) _ _ λ lobby.
          let open_room : Open room = known room is (not-false _ lobby) in
          search
            (
              steps, laws.harmless, without_application-IsHarmless, accept_applicant-Keeps,
              reject_applicant-Keeps, open_room,
            )
            depth 60

  pub set_ready-Keeps : (p : ℕ) (ready : Bool) → Keeps I (set_ready p ready)
  unfolding set_ready
  set_ready-Keeps p ready = find_member_room-Openly p _ λ r known. Keeps-some r _ _ λ room is.
      Keeps-bind (Keeps-or_fail _ _) λ m. Keeps-guard (not (is_lobby room.phase)) _ _ λ lobby.
        laws.opening room (set_member_ready p ready m) (known room is (not-false _ lobby))
          (λ _. refl)
