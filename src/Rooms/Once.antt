-- ===== src/Rooms/Once.antt =====
-- A transaction that was applied is not applied again through the life of the rooms of
-- server/rooms/RoomManager.ts.
use vaelmour_game.Prelude.{ℕ, zero, suc, ◌≡◌, Option, List}
use vaelmour_game.Prelude.Int.{ℤ, pos, negsuc}
use vaelmour_game.Prelude.Dict.{lookup}
use vaelmour_game.Combat.Types.{Float}
use vaelmour_game.Economy.Types.{Env}
use vaelmour_game.Economy.Monad.{Action}
use vaelmour_game.Economy.Repository.{
  Database, Outcome, applied, repeated, failed, economy_transact, StartOutcome, started, already,
  marker_missing, refused,
}
use vaelmour_game.Economy.Repository.Keys.{
  Recorded, Known, Known-repeated, applied-Known, economy_transact-Known,
}
use vaelmour_game.Economy.Repository.Retries.{start-Known, transact-Known, handle-Known}
use vaelmour_game.Economy.Repository.Profiles.{
  Change, changed, unchanged, refused_with, missing_player, LedgerEntry, transact,
}
use vaelmour_game.Economy.Service.{no_reference}
use vaelmour_game.Players.Attempt.{Attempt}
use vaelmour_game.Players.Inventory.{Working}
use vaelmour_game.Rooms.Handler.{modify}
use vaelmour_game.Rooms.Types.{RoomState, Manager, Setup}
use vaelmour_game.Rooms.Store.{
  change_room, put_room, delete_room, set_identity, set_peer, drop_peer, set_presence,
  put_availability, stop_accepting, set_randoms, take_draw, settle, transact_economy, settle_change,
  change_profile, now, reserve_slot, accept_slot, refund_slot,
}
use vaelmour_game.Rooms.Start.{settle_start, start_paid}
use vaelmour_game.Rooms.Rewards.{award_profile, complete_floor, extract_profile}
use vaelmour_game.Rooms.Events.{Event, economy, play}
use vaelmour_game.Rooms.Keeping.{Keeps, Keeps-bind, Keeps-pure, Keeps-throw}
use vaelmour_game.Rooms.Keeping.Laws.{Laws}
use vaelmour_game.Rooms.Keeping.Play.{play_keeps}

module _ {F : Type 0} (key : ℕ) (o : Option ℕ) where
  -- The manager's database knows the key.
  abbrev Knows : Manager F → Type 0
  Knows s = Known key o s.database

  settle-Knows :
      {A : Type 0} (s : Manager F) (x : Outcome A × Database)
      → Known key o x.1
      → Knows (settle s x).1
  settle-Knows s (applied _, db) h = h
  settle-Knows s (repeated _, db) h = h
  settle-Knows s (failed _, db) h = h

  settle_change-Knows :
      (s : Manager F) (x : Change × Database) → Known key o x.1 → Knows (settle_change s x).1
  settle_change-Knows s (changed _, db) h = h
  settle_change-Knows s (unchanged _, db) h = h
  settle_change-Knows s (refused_with _, db) h = h
  settle_change-Knows s (missing_player, db) h = h

  settle_start-Knows :
      (s : Manager F) (x : StartOutcome × Database) → Known key o x.1 → Knows (settle_start s x).1
  settle_start-Knows s (started _, db) h = h
  settle_start-Knows s (already _, db) h = h
  settle_start-Knows s (marker_missing, db) h = h
  settle_start-Knows s (refused _, db) h = h

  transact_economy-Knows : {A : Type 0} (k : ℕ) (m : Action A) → Keeps Knows (transact_economy k m)
  unfolding transact_economy
  transact_economy-Knows k m = record {
    run = λ s h. settle-Knows s _ (economy_transact-Known key o k m no_reference s.database h);
  }

  change_profile-Knows :
      (env : Env) (id k : ℕ) (entry : Option LedgerEntry) (mutate : Working → Attempt Working)
      → Keeps Knows (change_profile (transact env id k entry mutate))
  unfolding change_profile
  change_profile-Knows env id k entry mutate = record {
    run = λ s h. settle_change-Knows s _ (transact-Known key o env id k entry mutate s.database h);
  }

module _ (fl : Float) (setup : Setup fl.F) (key : ℕ) (o : Option ℕ) where
  open fl use {F}

  reserve_slot-Knows :
      (r a l : ℕ) (n : ℤ) (k : ℕ) → Keeps (Knows key o) (reserve_slot setup r a l n k)
  unfolding reserve_slot
  reserve_slot-Knows r a l (negsuc n) k = Keeps-throw _
  reserve_slot-Knows r a l (pos zero) k = Keeps-pure tt
  reserve_slot-Knows r a l (pos (suc n)) k = transact_economy-Knows key o _ _

  Knows-Laws :
      Laws fl setup (Knows key o) (λ (room : RoomState F). Unit {0}) (λ (draw : ℕ). Unit {0})
  unfolding set_identity set_peer drop_peer set_presence put_availability stop_accepting set_randoms
      take_draw now accept_slot refund_slot start_paid economy modify change_room put_room
      delete_room award_profile complete_floor extract_profile
  Knows-Laws = record {
    identity = λ i c. record { run = λ s h. h };
    peer = λ i p. record { run = λ s h. h };
    no_peer = λ i. record { run = λ s h. h };
    presence = λ i p. record { run = λ s h. h };
    available = λ i a b. record { run = λ s h. h };
    closing = record { run = λ s h. h };
    randoms = λ n. record { run = λ s h. h };
    drawing = record { run = λ s h. h };
    drawing_fresh = λ f k. Keeps-bind (record { run = λ s h. h }) (λ draw. k draw tt);
    clock = record { run = λ s h. h };
    deleting = λ k. record { run = λ s h. h };
    creating = λ draw p m fresh. record { run = λ s h. h };
    harmless = λ k h. record { run = λ s h. h };
    opening = λ room f other same. record { run = λ s h. h };
    found_open = λ s p room h found lobby. tt;
    reserving = reserve_slot-Knows;
    accepting = λ r a l. transact_economy-Knows key o _ _;
    refunding = λ why r a. transact_economy-Knows key o _ _;
    cancelling = λ k p t. transact_economy-Knows key o k _;
    starting = λ m l ms. record {
      run = λ s h. settle_start-Knows key o s _ (start-Known key o _ m _ s.database h);
    };
    awarding = λ p r i l x c. change_profile-Knows key o setup.env p _ _ _;
    completing = λ p r i f. change_profile-Knows key o setup.env p _ _ _;
    extracting = λ p r b l. change_profile-Knows key o setup.env p _ _ _;
    drinking = λ p k item. change_profile-Knows key o setup.env p k _ _;
    requesting = λ k r. record { run = λ s h. handle-Known key o setup.env k r s.database h };
  }

module _ (fl : Float) (setup : Setup fl.F) where
  -- Once a transaction is applied, then after any history of events - parties, expeditions, rounds,
  -- rewards, and requests of the economy under any keys - a second transaction under its key, whatever
  -- its body, changes nothing, and is answered with the reference of the first one's result, if that
  -- has one.
  pub play-AppliedOnce :
      {A : Type 0} (key : ℕ) (m n : Action A) (reference : A → Option ℕ) (s : Manager fl.F) (a : A)
      (es : List Event)
      → (economy_transact key m reference s.database).0 ≡ applied a
      → let after =
          (play fl setup es
            (record s { database = (economy_transact key m reference s.database).1 })).database in
        (economy_transact key n reference after
          ≡ (repeated (lookup key after.operation_references), after))
        × Recorded key (reference a) after
  play-AppliedOnce key m n reference s a es done =
      let first = record s { database = (economy_transact key m reference s.database).1 } in
      let known =
        play_keeps fl setup (Knows-Laws fl setup key (reference a)) es first
          (applied-Known key m reference s.database a done) in
      (Known-repeated key (reference a) n reference _ known, known.1)
