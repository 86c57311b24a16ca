-- ===== src/Rooms/Roster.antt =====
-- Who is in a room of server/rooms/RoomManager.ts after its expedition has begun.
use vaelmour_game.Prelude.{
  ℕ, zero, suc, ◌≡◌, ◌≢◌, ◌≤◌, refl, sym, ◌∙◌, true, false, some, List, find, arith, Bool-cases,
  inl, inr,
}
use vaelmour_game.Prelude.Int.{ℤ, pos, negsuc}
use vaelmour_game.Prelude.Dict.{values}
use vaelmour_game.Data.{includes}
use vaelmour_game.Combat.Types.{Float}
use vaelmour_game.Economy.Monad.{Action}
use vaelmour_game.Economy.Repository.{
  Database, Outcome, applied, repeated, failed, StartOutcome, started, already, marker_missing,
  refused,
}
use vaelmour_game.Economy.Repository.Profiles.{
  Change, changed, unchanged, refused_with, missing_player,
}
use vaelmour_game.Rooms.Handler.{modify, ◌>>=◌, continue}
use vaelmour_game.Rooms.Types.{RoomState, Manager, Setup}
use vaelmour_game.Rooms.Store.{
  has_key, has_member, is_lobby, change_room, put_room, delete_room, set_identity, set_peer,
  drop_peer, set_presence, put_availability, stop_accepting, set_randoms, take_draw, settle,
  transact_economy, settle_change, change_profile, now, reserve_slot, accept_slot, refund_slot,
}
use vaelmour_game.Rooms.Start.{settle_start, start_paid}
use vaelmour_game.Rooms.Events.{Event, economy, play}
use vaelmour_game.Prelude.Entries.{AllEntries, AllEntries-insert, AllEntries-erase, AllEntries-find}
use vaelmour_game.Rooms.Entries.{AllEntries-change_at, AllEntries-change_one}
use vaelmour_game.Rooms.Keeping.{Keeps, Keeps-pure, Keeps-throw}
use vaelmour_game.Rooms.Keeping.Laws.{IsHarmless, Laws}
use vaelmour_game.Rooms.Keeping.Play.{play_keeps}

module _ {F : Type 0} (id : ℕ) (ids : List ℕ) where
  -- A room stands under its identifier, and the one of this identifier has left the lobby and has no
  -- member but these.
  abbrev pub ClosedRoom : ℕ → RoomState F → Type 0
  ClosedRoom k r =
      (r.id ≡ k)
      × (k ≡ id
          → (is_lobby r.phase ≡ false)
            × ((j : ℕ) → has_key j r.members ≡ true → includes ids j ≡ true))

  abbrev pub Closed : Manager F → Type 0
  Closed s = AllEntries ClosedRoom s.rooms

  absent-present :
      (f : RoomState F → RoomState F) (r : RoomState F) (j : ℕ)
      → IsHarmless f
      → has_key j (f r).members ≡ true
      → has_key j r.members ≡ true
  absent-present f r j h there = elim (Bool-cases (has_key j r.members)) [
    | inl present ↦ present
    | inr absent ↦ let gone = h.lets_none_in r j absent in cc
  ]

  ClosedRoom-harmless :
      (f : RoomState F → RoomState F) (k : ℕ) (r : RoomState F)
      → IsHarmless f
      → ClosedRoom k r
      → ClosedRoom k (f r)
  ClosedRoom-harmless f k r h closed = (
    h.same_id r ∙ closed.0,
    λ same. (
      h.stays_started r (closed.1 same).0,
      λ j there. (closed.1 same).1 j (absent-present f r j h there),
    ),
  )

  ClosedRoom-find :
      (s : Manager F) (p : ℕ) (room : RoomState F)
      → Closed s
      → find (has_member p) (values s.rooms) ≡ some room
      → is_lobby room.phase ≡ true
      → room.id ≢ id
  ClosedRoom-find s p room closed found lobby same =
      let (k, here) = AllEntries-find ClosedRoom (has_member p) s.rooms room closed found in
      let away : is_lobby room.phase ≡ false = (here.1 (sym here.0 ∙ same)).0 in cc

module _ {F : Type 0} (since id : ℕ) (ids : List ℕ) where
  -- Closed, with at least so many answers of `randomUUID` drawn.
  abbrev pub ClosedSince : Manager F → Type 0
  ClosedSince s = Closed id ids s × (since ≤ s.draws)

  -- The services do not touch the rooms.
  settle-Closed :
      {A : Type 0} (s : Manager F) (x : Outcome A × Database)
      → ClosedSince s
      → ClosedSince (settle s x).1
  settle-Closed s (applied _, db) h = h
  settle-Closed s (repeated _, db) h = h
  settle-Closed s (failed _, db) h = h

  settle_change-Closed :
      (s : Manager F) (x : Change × Database) → ClosedSince s → ClosedSince (settle_change s x).1
  settle_change-Closed s (changed _, db) h = h
  settle_change-Closed s (unchanged _, db) h = h
  settle_change-Closed s (refused_with _, db) h = h
  settle_change-Closed s (missing_player, db) h = h

  settle_start-Closed :
      (s : Manager F) (x : StartOutcome × Database)
      → ClosedSince s
      → ClosedSince (settle_start s x).1
  settle_start-Closed s (started _, db) h = h
  settle_start-Closed s (already _, db) h = h
  settle_start-Closed s (marker_missing, db) h = h
  settle_start-Closed s (refused _, db) h = h

  transact_economy-Closed :
      {A : Type 0} (key : ℕ) (m : Action A) → Keeps ClosedSince (transact_economy key m)
  unfolding transact_economy
  transact_economy-Closed key m = record { run = λ s h. settle-Closed s _ h }

  change_profile-Closed :
      (run : Database → Change × Database) → Keeps ClosedSince (change_profile run)
  unfolding change_profile
  change_profile-Closed run = record { run = λ s h. settle_change-Closed s _ h }

  change_room-Closed :
      (k : ℕ) {f : RoomState F → RoomState F} → IsHarmless f → Keeps ClosedSince (change_room k f)
  unfolding change_room modify
  change_room-Closed k {f} h = record {
    run = λ s all. (
      AllEntries-change_at (ClosedRoom id ids) k f s.rooms
          (λ j r. ClosedRoom-harmless id ids f j r h) all.0,
      all.1,
    );
  }

  change_other-Closed :
      (room : RoomState F) (f : RoomState F → RoomState F)
      → room.id ≢ id
      → ((r : RoomState F) → (f r).id ≡ r.id)
      → Keeps ClosedSince (change_room room.id f)
  unfolding change_room modify
  change_other-Closed room f other same = record {
    run = λ s all. (
      AllEntries-change_one (ClosedRoom id ids) room.id f s.rooms
          (λ r closed. (same r ∙ closed.0, λ here. absurd (other here))) all.0,
      all.1,
    );
  }

  put_room-Closed : (room : RoomState F) → room.id ≢ id → Keeps ClosedSince (put_room room)
  unfolding put_room modify
  put_room-Closed room other = record {
    run = λ s all. (
      AllEntries-insert (ClosedRoom id ids) room.id room s.rooms (refl, λ here. absurd (other here))
          all.0,
      all.1,
    );
  }

  delete_room-Closed : (k : ℕ) → Keeps ClosedSince (delete_room k)
  unfolding delete_room modify
  delete_room-Closed k = record {
    run = λ s all. (AllEntries-erase (ClosedRoom id ids) k s.rooms all.0, all.1);
  }

module _ (fl : Float) (setup : Setup fl.F) (since id : ℕ) (ids : List ℕ) where
  open fl use {F}

  reserve_slot-Closed :
      (o a l : ℕ) (n : ℤ) (k : ℕ) → Keeps (ClosedSince since id ids) (reserve_slot setup o a l n k)
  unfolding reserve_slot
  reserve_slot-Closed o a l (negsuc n) k = Keeps-throw _
  reserve_slot-Closed o a l (pos zero) k = Keeps-pure tt
  reserve_slot-Closed o a l (pos (suc n)) k = transact_economy-Closed since id ids _ _

  Closed-Laws :
      ((n : ℕ) → since ≤ n → setup.room_id n ≢ id)
      → Laws fl setup
          (ClosedSince since id ids)
          (λ (room : RoomState F). room.id ≢ id)
          (λ draw. setup.room_id draw ≢ id)
  unfolding ◌>>=◌ continue set_identity set_peer drop_peer set_presence put_availability
      stop_accepting set_randoms take_draw now accept_slot refund_slot start_paid economy modify
  Closed-Laws fresh = record {
    identity = λ i c. record { run = λ s h. h };
    peer = λ i p. record { run = λ s h. h };
    no_peer = λ i. record { run = λ s h. h };
    presence = λ i p. record { run = λ s h. h };
    available = λ i a b. record { run = λ s h. h };
    closing = record { run = λ s h. h };
    randoms = λ n. record { run = λ s h. h };
    drawing = record { run = λ s h. (h.0, omega (arith, h.1)) };
    drawing_fresh = λ f k. record {
      run = λ s h. (k s.draws (fresh s.draws h.1)).run _ (h.0, omega (arith, h.1));
    };
    clock = record { run = λ s h. h };
    deleting = delete_room-Closed since id ids;
    creating = λ draw p m new. put_room-Closed since id ids _ new;
    harmless = λ k h. change_room-Closed since id ids k h;
    opening = λ room f other same. change_other-Closed since id ids room f other same;
    found_open = λ s p room h found lobby. ClosedRoom-find id ids s p room h.0 found lobby;
    reserving = reserve_slot-Closed;
    accepting = λ o a l. transact_economy-Closed since id ids _ _;
    refunding = λ why o a. transact_economy-Closed since id ids _ _;
    cancelling = λ key p t. transact_economy-Closed since id ids _ _;
    starting = λ m l ms. record { run = λ s h. settle_start-Closed since id ids s _ h };
    awarding = λ p o i l x c. change_profile-Closed since id ids _;
    completing = λ p o r f. change_profile-Closed since id ids _;
    extracting = λ p o b l. change_profile-Closed since id ids _;
    drinking = λ p key item. change_profile-Closed since id ids _;
    requesting = λ key r. record { run = λ s h. h };
  }

module _ (fl : Float) (setup : Setup fl.F) where
  -- Where every room stands under its identifier, no room that is created from now on gets the
  -- identifier of this one, and this one has left the lobby with no member but those listed: after
  -- any history of events it is either gone, or still out of the lobby with no member but those.
  pub play-Closed :
      (es : List Event) (s : Manager fl.F) (id : ℕ) (ids : List ℕ)
      → ((n : ℕ) → s.draws ≤ n → setup.room_id n ≢ id)
      → Closed id ids s
      → Closed id ids (play fl setup es s)
  play-Closed es s id ids fresh h =
      (play_keeps fl setup (Closed-Laws fl setup s.draws id ids fresh) es s (h, omega arith)).0
