-- ===== src/Rooms/Store.antt =====
-- The small operations that the handlers of server/rooms/RoomManager.ts are made of: reads and writes
-- of its maps, and the calls of the services.
use vaelmour_game.Prelude.{
  ℕ, zero, suc, Bool, true, false, Option, List, [], ◌∷◌, ◌==◌, if◌then◌else◌, find, is_some, map,
  ◌++◌,
}
use vaelmour_game.Prelude.Int.{ℤ, pos, negsuc}
use vaelmour_game.Prelude.Dict.{Dict, lookup, insert, erase, values}
use vaelmour_game.Data.{StoredPlayerProfile, PlayerRiftProgress}
use vaelmour_game.Combat.Types.{Character}
use vaelmour_game.Combat.Enemies.{EnemyDefinition}
use vaelmour_game.Economy.Monad.{Action, invalid_slot_offer, player_not_found}
use vaelmour_game.Economy.Trades.{set_availability}
use vaelmour_game.Economy.Slots.{reserve_party_slot, accept_party_slot, refund_party_slot}
use vaelmour_game.Economy.Repository.{
  Database, Outcome, applied, repeated, failed, economy_transact,
}
use vaelmour_game.Economy.Repository.Profiles.{
  Change, changed, unchanged, refused_with, missing_player, read_profile,
}
use vaelmour_game.Economy.Service.{no_reference}
use vaelmour_game.Players.Attempt.{player_not_found}
use vaelmour_game.Players.Rifts.{current_progress}
use vaelmour_game.Rooms.Handler.{
  Handler, Void, economy, service, no_player, unknown_floor, Exit, value, thrown, ◌>>=◌, pure,
  throw, or_throw, gets, modify,
}
use vaelmour_game.Rooms.Types.{
  RoomPhase, PresenceStatus, RoomState, Manager, FloorDefinition, RefundReason, Setup,
}

abbrev pub has_key : {V : Type 0} → ℕ → Dict V → Bool
has_key k d = is_some (lookup k d)

abbrev pub keys_of : {V : Type 0} → Dict V → List ℕ
keys_of [] = []
keys_of ((k, _) ∷ d) = k ∷ keys_of d

-- A write to the object that stands under a key.
abbrev pub change_at : {V : Type 0} → ℕ → (V → V) → Dict V → Dict V
change_at k f [] = []
change_at k f ((j, v) ∷ d) = if k == j then (j, f v) ∷ d else (j, v) ∷ change_at k f d

abbrev pub map_values : {V W : Type 0} → (V → W) → Dict V → Dict W
map_values f [] = []
map_values f ((k, v) ∷ d) = (k, f v) ∷ map_values f d

abbrev pub is_lobby : RoomPhase → Bool
is_lobby p = elim p [ RoomPhase.lobby ↦ true | _ ↦ false ]

abbrev pub is_combat : RoomPhase → Bool
is_combat p = elim p [ RoomPhase.combat ↦ true | _ ↦ false ]

abbrev pub is_post_encounter : RoomPhase → Bool
is_post_encounter p = elim p [ RoomPhase.post_encounter ↦ true | _ ↦ false ]

abbrev pub is_offline : PresenceStatus → Bool
is_offline status = elim status [ PresenceStatus.offline ↦ true | _ ↦ false ]

module _ {F : Type 0} where
  abbrev pub has_member : ℕ → RoomState F → Bool
  has_member player_id room = has_key player_id room.members

  -- `findMemberRoom`
  unfoldable pub find_member_room : ℕ → Handler (Manager F) (Option (RoomState F))
  find_member_room player_id = gets (λ s. find (has_member player_id) (values s.rooms))

  -- `this.rooms.get(roomId)`
  unfoldable pub room_at : ℕ → Handler (Manager F) (Option (RoomState F))
  room_at room_id = gets (λ s. lookup room_id s.rooms)

  unfoldable pub identity : ℕ → Handler (Manager F) (Option Character)
  identity player_id = gets (λ s. lookup player_id s.identities)

  unfoldable pub peer_of : ℕ → Handler (Manager F) (Option ℕ)
  peer_of player_id = gets (λ s. lookup player_id s.peers)

  -- Writes to the room that stands under an identifier.
  unfoldable pub change_room : ℕ → (RoomState F → RoomState F) → Handler (Manager F) Void
  change_room room_id f = modify (λ s. record s { rooms = change_at room_id f s.rooms })

  unfoldable pub put_room : RoomState F → Handler (Manager F) Void
  put_room room = modify (λ s. record s { rooms = insert room.id room s.rooms })

  unfoldable pub delete_room : ℕ → Handler (Manager F) Void
  delete_room room_id = modify (λ s. record s { rooms = erase room_id s.rooms })

  unfoldable pub set_identity : ℕ → Character → Handler (Manager F) Void
  set_identity player_id c = modify (λ s. record s { identities = insert player_id c s.identities })

  unfoldable pub set_peer : ℕ → ℕ → Handler (Manager F) Void
  set_peer player_id peer = modify (λ s. record s { peers = insert player_id peer s.peers })

  unfoldable pub drop_peer : ℕ → Handler (Manager F) Void
  drop_peer player_id = modify (λ s. record s { peers = erase player_id s.peers })

  -- `PresenceService.set`
  unfoldable pub set_presence : ℕ → PresenceStatus → Handler (Manager F) Void
  set_presence player_id status = modify (λ s. record s {
    presence =
        if is_offline status
        then erase player_id s.presence
        else insert player_id status s.presence;
  })

  -- `economy.setAvailability`
  unfoldable pub put_availability : ℕ → Bool → Bool → Handler (Manager F) Void
  put_availability player_id online locked =
      modify
        (λ s. record s { availability = set_availability player_id online locked s.availability })

  unfoldable pub stop_accepting : Handler (Manager F) Void
  stop_accepting = modify (λ s. record s { accepting = false })

  -- The answers of `random` go on from `n`.
  unfoldable pub set_randoms : ℕ → Handler (Manager F) Void
  set_randoms n = modify (λ s. record s { randoms = n })

  unfoldable pub take_draw : Handler (Manager F) ℕ
  take_draw s = (value s.draws, record s { draws = suc s.draws })

  -- What a transaction of the economy leaves; a refusal is thrown.
  abbrev pub settle : {A : Type 0} → Manager F → Outcome A × Database → Exit Void × Manager F
  settle s (applied _, db) = (value tt, record s { database = db })
  settle s (repeated _, db) = (value tt, record s { database = db })
  settle s (failed e, db) = (thrown (economy e), record s { database = db })

  unfoldable pub transact_economy : {A : Type 0} → ℕ → Action A → Handler (Manager F) Void
  transact_economy key action s = settle s (economy_transact key action no_reference s.database)

  -- What a change of a profile leaves, and whether it was applied.
  abbrev pub settle_change : Manager F → Change × Database → Exit Bool × Manager F
  settle_change s (changed _, db) = (value true, record s { database = db })
  settle_change s (unchanged _, db) = (value false, record s { database = db })
  settle_change s (refused_with c, db) = (thrown (service c), record s { database = db })
  settle_change s (missing_player, db) = (thrown no_player, record s { database = db })

  unfoldable pub change_profile : (Database → Change × Database) → Handler (Manager F) Bool
  change_profile run s = settle_change s (run s.database)

  -- `requireProfile`
  unfoldable pub require_profile : ℕ → Handler (Manager F) StoredPlayerProfile
  require_profile player_id = do
    p ← gets (λ s. read_profile s.database player_id)
    or_throw p (service player_not_found)

  module _ (setup : Setup F) where
    unfoldable pub now : Handler (Manager F) ℕ
    now s = (value (setup.clock s.moments), record s { moments = suc s.moments })

    unfoldable pub rift_progress : ℕ → ℕ → Handler (Manager F) PlayerRiftProgress
    rift_progress player_id rift_id = do
      p ← require_profile player_id
      pure (current_progress setup.rifts rift_id p.rift_progress)

    -- `reservePartySlot`: no transaction for nothing
    unfoldable pub reserve_slot : ℕ → ℕ → ℕ → ℤ → ℕ → Handler (Manager F) Void
    reserve_slot room_id applicant_id leader_id (negsuc _) operation_id =
        throw (economy invalid_slot_offer)
    reserve_slot room_id applicant_id leader_id (pos zero) operation_id = pure tt
    reserve_slot room_id applicant_id leader_id (pos (suc n)) operation_id =
        transact_economy (setup.keys.reserve applicant_id operation_id)
          (reserve_party_slot setup.env room_id applicant_id leader_id (pos (suc n)))

    unfoldable pub accept_slot : ℕ → ℕ → ℕ → Handler (Manager F) Void
    accept_slot room_id applicant_id leader_id =
        transact_economy (setup.keys.accept leader_id room_id applicant_id)
          (accept_party_slot setup.env room_id applicant_id leader_id)

    unfoldable pub refund_slot : RefundReason → ℕ → ℕ → Handler (Manager F) Void
    refund_slot reason room_id applicant_id =
        transact_economy (setup.keys.refund reason room_id applicant_id)
          (refund_party_slot setup.env room_id applicant_id)

    abbrev pub floor_definition : ℕ → ℕ → Option FloorDefinition
    floor_definition rift_id floor_number =
        find (λ f. f.floor_number == floor_number) (setup.floors rift_id)

    -- `floorEncounters`, each with what the catalog has under its identifier
    unfoldable pub floor_encounters :
        ℕ → ℕ → Handler (Manager F) (List (Option (EnemyDefinition F)))
    floor_encounters rift_id floor_number = do
      f ← or_throw (floor_definition rift_id floor_number) unknown_floor
      pure (map setup.enemies (f.encounter_enemy_ids ++ f.boss_id ∷ []))
