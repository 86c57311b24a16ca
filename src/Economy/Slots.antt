-- ===== src/Economy/Slots.antt =====
-- The paid party slots of server/economy/EconomyService.ts: an applicant's coins are reserved,
-- then refunded, or paid to the leader when the expedition starts.
use vaelmour_game.Prelude.{
  ℕ, zero, suc, ◌+◌, ◌*◌, Bool, true, false, not, ◌&&◌, ◌||◌, Option, none, some, List, ◌==◌, find,
  keep, any, is_some, length,
}
use vaelmour_game.Prelude.Int.{ℤ, pos, negsuc, ◌-ℤ◌, ltb_ℤ}
use vaelmour_game.Prelude.Dict.{values}
use vaelmour_game.Data.{includes}
use vaelmour_game.Economy.Types.{
  Env, PartySlotReservation, PartySlotReservationStatus, is_held, LedgerReason,
}
use vaelmour_game.Economy.Monad.{
  Action, Void, ◌>>=◌, ◌>>◌, pure, throw, throw_if, gets, when, for_each, random_uuid, now,
  insufficient_available_coins, invalid_slot_offer, slot_already_reserved, leader_mismatch,
  slot_settlement_failed, reservation_mismatch,
}
use vaelmour_game.Economy.Store.{
  player, change_player, put_reservation, add_coins, sub_coins, add_reserved_coins,
  sub_reserved_coins, ledger,
}

abbrev pub is_refunded : PartySlotReservation → Bool
is_refunded r = elim r.status [ PartySlotReservationStatus.refunded ↦ true | _ ↦ false ]

abbrev pub is_pre_start : PartySlotReservation → Bool
is_pre_start r = elim r.status [ PartySlotReservationStatus.pre_start ↦ true | _ ↦ false ]

abbrev pub is_accepted : PartySlotReservation → Bool
is_accepted r = elim r.status [ PartySlotReservationStatus.accepted ↦ true | _ ↦ false ]

abbrev pub is_for : ℕ → ℕ → PartySlotReservation → Bool
is_for room_id applicant_id r = r.room_id == room_id && r.applicant_id == applicant_id

abbrev pub is_led_by : ℕ → PartySlotReservation → Bool
is_led_by leader_id r = elim r.leader_id [ none ↦ false | some id ↦ id == leader_id ]

abbrev pub one_hour : ℕ
one_hour = 60 * 60 * 1000

module _ (env : Env) where
  unfoldable pub reserve_party_slot : ℕ → ℕ → ℕ → ℤ → Action (Option PartySlotReservation)
  reserve_party_slot room_id applicant_id leader_id (negsuc _) = throw invalid_slot_offer
  reserve_party_slot room_id applicant_id leader_id (pos zero) = pure none
  reserve_party_slot room_id applicant_id leader_id (pos (suc n)) = do
    let amount = suc n
    p ← player applicant_id
    throw_if (ltb_ℤ p.coins (pos amount)) insufficient_available_coins
    reservations ← gets (λ s. values s.party_slot_reservations)
    throw_if
        (is_some (find (λ r. is_for room_id applicant_id r && not (is_refunded r)) reservations))
        slot_already_reserved
    change_player applicant_id (sub_coins (pos amount))
    change_player applicant_id (add_reserved_coins (pos amount))
    created_at ← now env
    id ← random_uuid env
    let r : PartySlotReservation = record {
      id = id;
      room_id = room_id;
      applicant_id = applicant_id;
      leader_id = some leader_id;
      amount = amount;
      status = PartySlotReservationStatus.pre_start;
      expires_at = created_at + one_hour;
      created_at = created_at;
      updated_at = created_at;
    }
    put_reservation r
    ledger env applicant_id (pos 0 -ℤ pos amount) LedgerReason.party_slot_reserve
    pure (some r)

  unfoldable pub accept_party_slot : ℕ → ℕ → ℕ → Action Void
  accept_party_slot room_id applicant_id leader_id = do
    reservations ← gets (λ s. values s.party_slot_reservations)
    elim (find (λ r. is_for room_id applicant_id r && is_pre_start r) reservations) [
      | none ↦ pure tt
      | some r ↦
          throw_if (not (is_led_by leader_id r)) leader_mismatch
          >> (now env >>= λ updated_at.
              put_reservation (record r {
                status = PartySlotReservationStatus.accepted;
                updated_at = updated_at;
              }))
    ]

  -- The body that `refundPartySlot` and the cleanup share.
  unfoldable pub refund : PartySlotReservation → Action Void
  refund r = do
    p ← player r.applicant_id
    throw_if (ltb_ℤ p.reserved_coins (pos r.amount)) reservation_mismatch
    change_player r.applicant_id (sub_reserved_coins (pos r.amount))
    change_player r.applicant_id (add_coins (pos r.amount))
    updated_at ← now env
    put_reservation
        (record r { status = PartySlotReservationStatus.refunded; updated_at = updated_at })
    ledger env r.applicant_id (pos r.amount) LedgerReason.party_slot_refund

  unfoldable pub refund_party_slot : ℕ → ℕ → Action Void
  refund_party_slot room_id applicant_id = do
    reservations ← gets (λ s. values s.party_slot_reservations)
    elim (find (λ r. is_for room_id applicant_id r && is_held r) reservations) [
      | none ↦ pure tt
      | some r ↦ refund r
    ]

  -- The number of the reservations that were held.
  unfoldable pub cleanup_orphaned_party_slots : Action ℕ
  cleanup_orphaned_party_slots = do
    reservations ← gets (λ s. values s.party_slot_reservations)
    for_each (λ r. when (is_held r) (refund r)) reservations
    pure (length (keep is_held reservations))

  unfoldable pub check_slot : ℕ → PartySlotReservation → Action Void
  check_slot leader_id r = do
    applicant ← player r.applicant_id
    throw_if (not (is_led_by leader_id r) || ltb_ℤ applicant.reserved_coins (pos r.amount))
        slot_settlement_failed

  unfoldable pub pay_slot : ℕ → PartySlotReservation → Action Void
  pay_slot leader_id r = do
    player r.applicant_id
    change_player r.applicant_id (sub_reserved_coins (pos r.amount))
    change_player leader_id (add_coins (pos r.amount))
    updated_at ← now env
    put_reservation
        (record r { status = PartySlotReservationStatus.settled; updated_at = updated_at })
    ledger env r.applicant_id (pos 0) LedgerReason.party_slot_payment
    ledger env leader_id (pos r.amount) LedgerReason.party_slot_payment

  unfoldable pub settle_party_slots : ℕ → ℕ → List ℕ → Action Void
  settle_party_slots room_id leader_id member_ids = do
    reservations ← gets (λ s. values s.party_slot_reservations)
    let accepted = keep (λ r. r.room_id == room_id && is_accepted r) reservations
    throw_if (any (λ r. not (includes member_ids r.applicant_id)) accepted) slot_settlement_failed
    player leader_id
    for_each (check_slot leader_id) accepted
    for_each (pay_slot leader_id) accepted
