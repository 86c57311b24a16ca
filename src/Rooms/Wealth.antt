-- ===== src/Rooms/Wealth.antt =====
-- The coins of all players through the life of the rooms of server/rooms/RoomManager.ts.
use vaelmour_game.Prelude.{
  ℕ, zero, suc, ◌≡◌, refl, ◌∙◌, Option, none, some, List, Bool-cases, Option-cases, inl, inr,
}
use vaelmour_game.Prelude.Int.{ℤ, pos, negsuc, ◌+ℤ◌, ◌-ℤ◌, int_laws}
use vaelmour_game.Prelude.Dict.{lookup, sum_by-insert}
use vaelmour_game.Data.{StoredPlayerProfile, includes}
use vaelmour_game.Combat.Types.{Float}
use vaelmour_game.Economy.Types.{Env, LedgerReason, DirectTradeStatus}
use vaelmour_game.Economy.Monad.{Action}
use vaelmour_game.Economy.Valuation.{Shifts, sum_ledger-append}
use vaelmour_game.Economy.Totals.{coins_and_fees, fee_taken, wealth}
use vaelmour_game.Economy.Repository.{
  Database, Outcome, applied, repeated, failed, StartOutcome, started, already, marker_missing,
  refused,
}
use vaelmour_game.Economy.Repository.Profiles.{
  Change, changed, unchanged, refused_with, missing_player, LedgerEntry, push_entry, write_profile,
  conclude_change, transact,
}
use vaelmour_game.Economy.Service.{no_reference}
use vaelmour_game.Economy.Conservation.History.{
  economy_transact-wealth, start-wealth, handle-wealth,
}
use vaelmour_game.Economy.Conservation.Slots.{
  reserve_party_slot-Shifts, accept_party_slot-Shifts, refund_party_slot-Shifts,
  settle_party_slots-Shifts,
}
use vaelmour_game.Economy.Conservation.Trades.{close_trade-Shifts}
use vaelmour_game.Players.Attempt.{Attempt, done, refused}
use vaelmour_game.Players.Inventory.{Working}
use vaelmour_game.Players.Items.{award_progression}
use vaelmour_game.Players.Counts.{After, Holds, After-done}
use vaelmour_game.Players.Purses.{
  SamePurse, After-map_done, consume_item-SamePurse, complete_rift_floor-SamePurse,
  commit_loot-SamePurse,
}
use vaelmour_game.Rooms.Handler.{modify}
use vaelmour_game.Rooms.Types.{RoomState, Manager, Setup}
use vaelmour_game.Rooms.Store.{
  change_room, put_room, delete_room, set_identity, set_peer, drop_peer, set_presence,
  put_availability, stop_accepting, set_randoms, take_draw, settle, transact_economy, settle_change,
  change_profile, now, reserve_slot, accept_slot, refund_slot,
}
use vaelmour_game.Rooms.Start.{settle_start, start_paid}
use vaelmour_game.Rooms.Rewards.{award_profile, complete_floor, extract_profile}
use vaelmour_game.Rooms.Events.{Event, economy, play}
use vaelmour_game.Rooms.Keeping.{Keeps, Keeps-bind, Keeps-pure, Keeps-throw}
use vaelmour_game.Rooms.Keeping.Laws.{Laws}
use vaelmour_game.Rooms.Keeping.Play.{play_keeps}

abbrev purse : StoredPlayerProfile → ℤ
purse p = p.coins +ℤ p.reserved_coins

-- What the ledger's entry says has come in.
abbrev given : Option LedgerEntry → ℤ
given none = pos 0
given (some (amount, reason)) = pos 0 -ℤ fee_taken reason amount

-- A change of the profile by just what its entry in the ledger says.
abbrev Accounted : Option LedgerEntry → StoredPlayerProfile → Working → Type 0
Accounted entry p w = purse w.profile ≡ purse p +ℤ given entry

add_zero : (x : ℤ) → x ≡ x +ℤ pos 0
add_zero x = grind int_laws

SamePurse-Accounted :
    (p : StoredPlayerProfile) (w : Working) → SamePurse p w.profile → Accounted none p w
SamePurse-Accounted p w h = rw (h.coins, h.reserved) (add_zero _)

-- The sums that the change of a profile shifts.
balance :
    (x y new old rest fee d : ℤ)
    → x +ℤ old ≡ y +ℤ new
    → new ≡ old +ℤ (pos 0 -ℤ fee)
    → x +ℤ (rest +ℤ fee) ≡ y +ℤ rest
balance x y new old rest fee d h k = grind int_laws

balance_none :
    (x y new old rest : ℤ) → x +ℤ old ≡ y +ℤ new → new ≡ old +ℤ pos 0 → x +ℤ rest ≡ y +ℤ rest
balance_none x y new old rest h k = grind int_laws

module _ (env : Env) where
  push_entry-wealth :
      (id key : ℕ) (entry : Option LedgerEntry) (w : Working) (db : Database)
      (p : StoredPlayerProfile)
      → lookup id db.state.players ≡ some p
      → Accounted entry p w
      → wealth (push_entry env id entry w.profile (write_profile env id key w db)).state
        ≡ wealth db.state
  unfolding push_entry
  push_entry-wealth id key none w db p here h =
      balance_none _ _ _ _ _
        (sum_by-insert coins_and_fees.on_player id w.profile p db.state.players here) h
  push_entry-wealth id key (some (amount, reason)) w db p here h = rw sum_ledger-append (
      balance _ _ _ _ _ (fee_taken reason amount) (pos 0)
        (sum_by-insert coins_and_fees.on_player id w.profile p db.state.players here) h)

  conclude_change-wealth :
      (id key : ℕ) (entry : Option LedgerEntry) (m : Attempt Working) (db : Database)
      (p : StoredPlayerProfile)
      → lookup id db.state.players ≡ some p
      → Holds (Accounted entry p) m
      → wealth (conclude_change env id key entry m db).1.state ≡ wealth db.state
  unfolding conclude_change
  conclude_change-wealth id key entry (done w) db p here h =
      push_entry-wealth id key entry w db p here h
  conclude_change-wealth id key entry (refused c) db p here h = refl

  -- The change of a profile by what the ledger says conserves the wealth.
  transact-wealth :
      (id key : ℕ) (entry : Option LedgerEntry) (mutate : Working → Attempt Working) (db : Database)
      → ((w : Working) → After (Accounted entry w.profile) (mutate w))
      → wealth (transact env id key entry mutate db).1.state ≡ wealth db.state
  unfolding transact
  transact-wealth id key entry mutate db h = elim (Option-cases (lookup id db.state.players)) [
    | inl missing ↦ rw (missing, transact) refl
    | inr (p, here) ↦ elim (Bool-cases (includes db.operations key)) [
      | inl old ↦ rw (here, old, transact) refl
      | inr new ↦
          rw (here, new, transact) (conclude_change-wealth id key entry _ db p here (h _).holds)
    ]
  ]

module _ {F : Type 0} (sum : ℤ) where
  abbrev pub HasWealth : Manager F → Type 0
  HasWealth s = wealth s.database.state ≡ sum

  settle-HasWealth :
      {A : Type 0} (s : Manager F) (x : Outcome A × Database)
      → wealth x.1.state ≡ sum
      → HasWealth (settle s x).1
  settle-HasWealth s (applied _, db) h = h
  settle-HasWealth s (repeated _, db) h = h
  settle-HasWealth s (failed _, db) h = h

  settle_change-HasWealth :
      (s : Manager F) (x : Change × Database)
      → wealth x.1.state ≡ sum
      → HasWealth (settle_change s x).1
  settle_change-HasWealth s (changed _, db) h = h
  settle_change-HasWealth s (unchanged _, db) h = h
  settle_change-HasWealth s (refused_with _, db) h = h
  settle_change-HasWealth s (missing_player, db) h = h

  settle_start-HasWealth :
      (s : Manager F) (x : StartOutcome × Database)
      → wealth x.1.state ≡ sum
      → HasWealth (settle_start s x).1
  settle_start-HasWealth s (started _, db) h = h
  settle_start-HasWealth s (already _, db) h = h
  settle_start-HasWealth s (marker_missing, db) h = h
  settle_start-HasWealth s (refused _, db) h = h

  transact_economy-HasWealth :
      {A : Type 0} (key : ℕ) {m : Action A}
      → Shifts coins_and_fees (pos 0) m
      → Keeps HasWealth (transact_economy key m)
  unfolding transact_economy
  transact_economy-HasWealth key {m} shifts = record {
    run = λ s h.
        settle-HasWealth s _ (economy_transact-wealth key no_reference s.database shifts ∙ h);
  }

  change_profile-HasWealth :
      (env : Env) (id key : ℕ) (entry : Option LedgerEntry) (mutate : Working → Attempt Working)
      → ((w : Working) → After (Accounted entry w.profile) (mutate w))
      → Keeps HasWealth (change_profile (transact env id key entry mutate))
  unfolding change_profile
  change_profile-HasWealth env id key entry mutate accounted = record {
    run = λ s h.
        settle_change-HasWealth s _
          (transact-wealth env id key entry mutate s.database accounted ∙ h);
  }

award_profile-Accounted :
    (level xp coins : ℕ) (w : Working)
    → Accounted
        (some (pos coins, LedgerReason.rift_reward))
        w.profile
        (record w { profile = award_progression level xp (pos coins) w.profile })
unfolding award_progression
award_profile-Accounted level xp coins w = grind int_laws

module _ (fl : Float) (setup : Setup fl.F) (sum : ℤ) where
  open fl use {F}

  reserve_slot-HasWealth :
      (o a l : ℕ) (n : ℤ) (k : ℕ) → Keeps (HasWealth sum) (reserve_slot setup o a l n k)
  unfolding reserve_slot
  reserve_slot-HasWealth o a l (negsuc n) k = Keeps-throw _
  reserve_slot-HasWealth o a l (pos zero) k = Keeps-pure tt
  reserve_slot-HasWealth o a l (pos (suc n)) k =
      transact_economy-HasWealth sum _ (reserve_party_slot-Shifts setup.env o a l (pos (suc n)))

  HasWealth-Laws :
      Laws fl setup (HasWealth sum) (λ (room : RoomState F). Unit {0}) (λ (draw : ℕ). Unit {0})
  unfolding set_identity set_peer drop_peer set_presence put_availability stop_accepting set_randoms
      take_draw now accept_slot refund_slot start_paid economy modify change_room put_room
      delete_room award_profile complete_floor extract_profile
  HasWealth-Laws = record {
    identity = λ i c. record { run = λ s h. h };
    peer = λ i p. record { run = λ s h. h };
    no_peer = λ i. record { run = λ s h. h };
    presence = λ i p. record { run = λ s h. h };
    available = λ i a b. record { run = λ s h. h };
    closing = record { run = λ s h. h };
    randoms = λ n. record { run = λ s h. h };
    drawing = record { run = λ s h. h };
    drawing_fresh = λ f k. Keeps-bind (record { run = λ s h. h }) (λ draw. k draw tt);
    clock = record { run = λ s h. h };
    deleting = λ k. record { run = λ s h. h };
    creating = λ draw p m fresh. record { run = λ s h. h };
    harmless = λ k h. record { run = λ s h. h };
    opening = λ room f other same. record { run = λ s h. h };
    found_open = λ s p room h found lobby. tt;
    reserving = reserve_slot-HasWealth;
    accepting =
        λ o a l. transact_economy-HasWealth sum _ (accept_party_slot-Shifts setup.env o a l);
    refunding =
        λ why o a. transact_economy-HasWealth sum _ (refund_party_slot-Shifts setup.env o a);
    cancelling = λ key p t.
        transact_economy-HasWealth sum key
          (close_trade-Shifts setup.env p t DirectTradeStatus.cancelled);
    starting = λ m l ms. record {
      run = λ s h.
          settle_start-HasWealth sum s _
            (start-wealth _ m s.database (settle_party_slots-Shifts setup.env m.room_id l ms) ∙ h);
    };
    awarding = λ p o i l x c.
        change_profile-HasWealth sum setup.env p _ _ _
          (λ w. After-done _ _ (award_profile-Accounted l x c w));
    completing = λ p o r f. change_profile-HasWealth sum setup.env p _ none _ (λ w.
        After-map_done (SamePurse w.profile) (Accounted none w.profile) _
          (complete_rift_floor-SamePurse setup.rifts r f w.profile)
          (λ q same. SamePurse-Accounted w.profile (record w { profile = q }) same));
    extracting = λ p o b l. change_profile-HasWealth sum setup.env p _ none _ (λ w.
        After-map_done _ (Accounted none w.profile) _
          (commit_loot-SamePurse _ _ setup.recipe_item l w)
          (λ r same. SamePurse-Accounted w.profile r.0 same));
    drinking = λ p key item. change_profile-HasWealth sum setup.env p key none _ (λ w.
        After-map_done (SamePurse w.profile) (Accounted none w.profile) _
          (consume_item-SamePurse item 1 w.profile)
          (λ q same. SamePurse-Accounted w.profile (record w { profile = q }) same));
    requesting = λ key r. record { run = λ s h. handle-wealth setup.env key r s.database ∙ h };
  }

module _ (fl : Float) (setup : Setup fl.F) where
  -- Over any history of the manager's events - parties, expeditions, rounds, rewards, extractions,
  -- disconnects and requests of the economy - the coins of all players, free and reserved, plus the
  -- fees that the ledger records as taken, less the rewards and grants that it records as given,
  -- stay what they were.
  pub play-wealth :
      (es : List Event) (s : Manager fl.F)
      → wealth (play fl setup es s).database.state ≡ wealth s.database.state
  play-wealth es s = play_keeps fl setup (HasWealth-Laws fl setup _) es s refl
