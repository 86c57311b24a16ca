-- ===== src/Rooms/Locked.antt =====
-- What the requests of the lobby in server/rooms/RoomManager.ts leave of a room that runs.
pub mod Lobby
pub mod Play
use vaelmour_game.Prelude.{
  ℕ, zero, suc, ◌≡◌, ◌≢◌, refl, sym, ap, ◌∙◌, subst, Bool, true, false, not, ◌&&◌, Option, none,
  some, List, [], ◌∷◌, ◌==◌, find, All, Bool-cases, inl, inr, arith, ==_iff,
}
use vaelmour_game.Prelude.Int.{ℤ, pos, negsuc}
use vaelmour_game.Prelude.Dict.{Dict, lookup, erase, values}
use vaelmour_game.Prelude.Entries.{AllEntries, AllEntries-erase, AllEntries-find, AllEntries-lookup}
use vaelmour_game.Combat.Types.{Float, Character}
use vaelmour_game.Economy.Monad.{Action}
use vaelmour_game.Economy.Repository.{
  Database, Outcome, applied, repeated, failed, DurableExpeditionStart, StartOutcome, started,
  already, marker_missing, refused,
}
use vaelmour_game.Rooms.Handler.{Handler, Void, Exit, ◌>>=◌, modify}
use vaelmour_game.Rooms.Types.{PresenceStatus, RoomPhase, RoomState, Manager, RefundReason, Setup}
use vaelmour_game.Rooms.Store.{
  has_key, has_member, change_at, is_lobby, find_member_room, room_at, change_room, delete_room,
  set_presence, put_availability, take_draw, settle, transact_economy, now, reserve_slot,
  accept_slot, refund_slot,
}
use vaelmour_game.Rooms.Leaving.{is_running}
use vaelmour_game.Rooms.Start.{settle_start}
use vaelmour_game.Rooms.Entries.{AllEntries-change_one}
use vaelmour_game.Rooms.Keeping.{
  Keeps, Keeps-known, Keeps-pure, Keeps-throw, Keeps-bind, Keeps-for_each,
}

-- Every room stands under its identifier, and this one is all that stands under this identifier.
abbrev pub IsNamed : {F : Type 0} → ℕ → RoomState F → ℕ → RoomState F → Type 0
IsNamed id room k r = (r.id ≡ k) × ((k ≡ id) → r ≡ room)

abbrev pub Stands : {F : Type 0} → ℕ → RoomState F → Manager F → Type 0
Stands id room s = AllEntries (IsNamed id room) s.rooms × (lookup id s.rooms ≡ some room)

other_test : (k id : ℕ) → k ≢ id → (id == k) ≡ false
other_test k id other = elim (Bool-cases (id == k)) [
  | inl hit ↦ absurd (other (sym ((==_iff id k).0 hit)))
  | inr miss ↦ miss
]

lookup-change_at :
    {V : Type 0} (id k : ℕ) (f : V → V) (d : Dict V)
    → (id == k) ≡ false
    → lookup id (change_at k f d) ≡ lookup id d
lookup-change_at id k f [] other = refl
lookup-change_at id k f ((j, v) ∷ d) other = ground (arith, lookup-change_at id k f d)

lookup-erase :
    {V : Type 0} (id k : ℕ) (d : Dict V) → (id == k) ≡ false → lookup id (erase k d) ≡ lookup id d
lookup-erase id k [] other = refl
lookup-erase id k ((j, v) ∷ d) other = ground (arith, lookup-erase id k d)

module _ {F : Type 0} (id : ℕ) (room : RoomState F) where
  pub change_room-Stands :
      (k : ℕ) (f : RoomState F → RoomState F)
      → k ≢ id
      → ((r : RoomState F) → (f r).id ≡ r.id)
      → Keeps (Stands id room) (change_room k f)
  unfolding change_room modify
  change_room-Stands k f other same = record {
    run = λ s h. (
      AllEntries-change_one (IsNamed id room) k f s.rooms
          (λ r named. (same r ∙ named.0, λ here. absurd (other here))) h.0,
      lookup-change_at id k f s.rooms (other_test k id other) ∙ h.1,
    );
  }

  pub delete_room-Stands : (k : ℕ) → k ≢ id → Keeps (Stands id room) (delete_room k)
  unfolding delete_room modify
  delete_room-Stands k other = record {
    run = λ s h. (
      AllEntries-erase (IsNamed id room) k s.rooms h.0,
      lookup-erase id k s.rooms (other_test k id other) ∙ h.1,
    );
  }

  settle-Stands :
      {A : Type 0} (s : Manager F) (x : Outcome A × Database)
      → Stands id room s
      → Stands id room (settle s x).1
  settle-Stands s (applied _, db) h = h
  settle-Stands s (repeated _, db) h = h
  settle-Stands s (failed _, db) h = h

  pub settle_start-Stands :
      (s : Manager F) (x : StartOutcome × Database)
      → Stands id room s
      → Stands id room (settle_start s x).1
  settle_start-Stands s (started _, db) h = h
  settle_start-Stands s (already _, db) h = h
  settle_start-Stands s (marker_missing, db) h = h
  settle_start-Stands s (refused _, db) h = h

  transact_economy-Stands :
      {A : Type 0} (k : ℕ) (m : Action A) → Keeps (Stands id room) (transact_economy k m)
  unfolding transact_economy
  transact_economy-Stands k m = record { run = λ s h. settle-Stands s _ h }

  pub set_presence-Stands :
      (p : ℕ) (status : PresenceStatus) → Keeps (Stands id room) (set_presence p status)
  unfolding set_presence modify
  set_presence-Stands p status = record { run = λ s h. h }

  pub put_availability-Stands :
      (p : ℕ) (a b : Bool) → Keeps (Stands id room) (put_availability p a b)
  unfolding put_availability modify
  put_availability-Stands p a b = record { run = λ s h. h }

  pub take_draw-Stands : Keeps (Stands id room) take_draw
  unfolding take_draw
  take_draw-Stands = record { run = λ s h. h }

  pub now-Stands : (setup : Setup F) → Keeps (Stands id room) (now setup)
  unfolding now
  now-Stands setup = record { run = λ s h. h }

  pub refund_slot-Stands :
      (setup : Setup F) (why : RefundReason) (o a : ℕ)
      → Keeps (Stands id room) (refund_slot setup why o a)
  unfolding refund_slot
  refund_slot-Stands setup why o a = transact_economy-Stands _ _

  pub accept_slot-Stands :
      (setup : Setup F) (o a l : ℕ) → Keeps (Stands id room) (accept_slot setup o a l)
  unfolding accept_slot
  accept_slot-Stands setup o a l = transact_economy-Stands _ _

  pub reserve_slot-Stands :
      (setup : Setup F) (o a l : ℕ) (n : ℤ) (k : ℕ)
      → Keeps (Stands id room) (reserve_slot setup o a l n k)
  unfolding reserve_slot
  reserve_slot-Stands setup o a l (negsuc n) k = Keeps-throw _
  reserve_slot-Stands setup o a l (pos zero) k = Keeps-pure tt
  reserve_slot-Stands setup o a l (pos (suc n)) k = transact_economy-Stands _ _

  -- What a read tells of a room: it is this one, if it has its identifier.
  abbrev pub Foreign : RoomState F → Type 0
  Foreign r = r.id ≡ id → r ≡ room

  abbrev pub IsForeign : Option (RoomState F) → Type 0
  IsForeign o = (r : RoomState F) → o ≡ some r → Foreign r

  pub find_member_room-Stands :
      {A : Type 0} (p : ℕ) (f : Option (RoomState F) → Handler (Manager F) A)
      → ((o : Option (RoomState F)) → IsForeign o → Keeps (Stands id room) (f o))
      → Keeps (Stands id room) (find_member_room p >>= f)
  unfolding find_member_room
  find_member_room-Stands p f h =
      Keeps-known IsForeign _ f
        (λ s i r e here.
          let (k, named) = AllEntries-find (IsNamed id room) (has_member p) s.rooms r i.0 e in
          named.1 (sym named.0 ∙ here))
        h

  -- A read under an identifier gives a room of that identifier.
  pub room_at-Stands :
      {A : Type 0} (k : ℕ) (f : Option (RoomState F) → Handler (Manager F) A)
      → ((o : Option (RoomState F))
          → ((r : RoomState F) → o ≡ some r → (r.id ≡ k) × Foreign r)
          → Keeps (Stands id room) (f o))
      → Keeps (Stands id room) (room_at k >>= f)
  unfolding room_at
  room_at-Stands k f h =
      Keeps-known (λ o. (r : RoomState F) → o ≡ some r → (r.id ≡ k) × Foreign r) _ f
        (λ s i r e.
          let named = AllEntries-lookup (IsNamed id room) k s.rooms r i.0 e in
          (named.0, λ here. named.1 (sym named.0 ∙ here)))
        h
