-- ===== src/Economy/Conservation/Slots.antt =====
-- The paid party slots conserve the wealth.
use vaelmour_game.Prelude.{ℕ, zero, suc, refl, ◌&&◌, none, List, find}
use vaelmour_game.Prelude.Int.{ℤ, pos, negsuc, int_laws}
use vaelmour_game.Economy.Types.{Env, LedgerReason, PartySlotReservation}
use vaelmour_game.Economy.Monad.{invalid_slot_offer}
use vaelmour_game.Economy.Valuation.{
  Shifts, Shifts-after, Shifts-step, Shifts-pure, Shifts-throw, Shifts-throw_if, Shifts-gets,
  Shifts-now, Shifts-player, Shifts-put_reservation, Shifts-when, Shifts-option, Shifts-for_each,
}
use vaelmour_game.Economy.Totals.{
  coins_and_fees, keeping, add_coins-Shifts, sub_coins-Shifts, add_reserved_coins-Shifts,
  sub_reserved_coins-Shifts, ledger-Shifts,
}
use vaelmour_game.Economy.Slots.{
  reserve_party_slot, accept_party_slot, refund, refund_party_slot, cleanup_orphaned_party_slots,
  check_slot, pay_slot, settle_party_slots, is_for, is_pre_start,
}

module _ (env : Env) where
  pub reserve_party_slot-Shifts :
      (room_id applicant_id leader_id : ℕ) (amount : ℤ)
      → Shifts coins_and_fees (pos 0) (reserve_party_slot env room_id applicant_id leader_id amount)
  unfolding reserve_party_slot
  reserve_party_slot-Shifts room_id applicant_id leader_id (negsuc _) =
      Shifts-throw coins_and_fees (pos 0) invalid_slot_offer
  reserve_party_slot-Shifts room_id applicant_id leader_id (pos zero) =
      Shifts-pure coins_and_fees none
  reserve_party_slot-Shifts room_id applicant_id leader_id (pos (suc n)) =
      Shifts-after coins_and_fees (Shifts-player coins_and_fees applicant_id) λ p.
        Shifts-after coins_and_fees (Shifts-throw_if coins_and_fees _ _) λ _.
          Shifts-after coins_and_fees (Shifts-gets coins_and_fees _) λ reservations.
            Shifts-after coins_and_fees (Shifts-throw_if coins_and_fees _ _) λ _.
              Shifts-step coins_and_fees (pos (suc n)) (grind int_laws)
                (sub_coins-Shifts applicant_id (pos (suc n)))
                λ _.
                  Shifts-step coins_and_fees (pos 0) (grind int_laws)
                    (add_reserved_coins-Shifts applicant_id (pos (suc n)))
                    λ _.
                      search
                        (keeping, ledger-Shifts env applicant_id _ LedgerReason.party_slot_reserve)
                        depth 10

  pub accept_party_slot-Shifts :
      (room_id applicant_id leader_id : ℕ)
      → Shifts coins_and_fees (pos 0) (accept_party_slot env room_id applicant_id leader_id)
  unfolding accept_party_slot
  accept_party_slot-Shifts room_id applicant_id leader_id =
      Shifts-after coins_and_fees (Shifts-gets coins_and_fees _) λ reservations.
        Shifts-option coins_and_fees
          (find (λ r. is_for room_id applicant_id r && is_pre_start r) reservations) _ _
          (Shifts-pure coins_and_fees tt)
          λ r. Shifts-after coins_and_fees (Shifts-throw_if coins_and_fees _ _) λ _.
            Shifts-after coins_and_fees (Shifts-now coins_and_fees env)
              λ updated_at. Shifts-put_reservation coins_and_fees _

  refund-Shifts : (r : PartySlotReservation) → Shifts coins_and_fees (pos 0) (refund env r)
  unfolding refund
  refund-Shifts r = Shifts-after coins_and_fees (Shifts-player coins_and_fees r.applicant_id) λ p.
      Shifts-after coins_and_fees (Shifts-throw_if coins_and_fees _ _) λ _.
        Shifts-step coins_and_fees (pos r.amount) (grind int_laws)
          (sub_reserved_coins-Shifts r.applicant_id (pos r.amount))
          λ _.
            Shifts-step coins_and_fees (pos 0) (grind int_laws)
              (add_coins-Shifts r.applicant_id (pos r.amount))
              λ _. Shifts-after coins_and_fees (Shifts-now coins_and_fees env) λ updated_at.
                Shifts-after coins_and_fees (Shifts-put_reservation coins_and_fees _) λ _.
                  ledger-Shifts env r.applicant_id (pos r.amount) LedgerReason.party_slot_refund

  pub refund_party_slot-Shifts :
      (room_id applicant_id : ℕ)
      → Shifts coins_and_fees (pos 0) (refund_party_slot env room_id applicant_id)
  unfolding refund_party_slot
  refund_party_slot-Shifts room_id applicant_id =
      Shifts-after coins_and_fees (Shifts-gets coins_and_fees _) λ reservations.
        Shifts-option coins_and_fees _ _ _ (Shifts-pure coins_and_fees tt) refund-Shifts

  pub cleanup_orphaned_party_slots-Shifts :
      Shifts coins_and_fees (pos 0) (cleanup_orphaned_party_slots env)
  unfolding cleanup_orphaned_party_slots
  cleanup_orphaned_party_slots-Shifts =
      Shifts-after coins_and_fees (Shifts-gets coins_and_fees _) λ reservations.
        Shifts-after coins_and_fees
          (Shifts-for_each coins_and_fees reservations
            λ r. Shifts-when coins_and_fees _ (λ _. refl) (refund-Shifts r))
          λ _. Shifts-pure coins_and_fees _

  check_slot-Shifts :
      (leader_id : ℕ) (r : PartySlotReservation)
      → Shifts coins_and_fees (pos 0) (check_slot env leader_id r)
  unfolding check_slot
  check_slot-Shifts leader_id r = search keeping

  -- The applicant's reserved coins go to the leader.
  pay_slot-Shifts :
      (leader_id : ℕ) (r : PartySlotReservation)
      → Shifts coins_and_fees (pos 0) (pay_slot env leader_id r)
  unfolding pay_slot
  pay_slot-Shifts leader_id r =
      Shifts-after coins_and_fees (Shifts-player coins_and_fees r.applicant_id) λ p.
        Shifts-step coins_and_fees (pos r.amount) (grind int_laws)
          (sub_reserved_coins-Shifts r.applicant_id (pos r.amount))
          λ _.
            Shifts-step coins_and_fees (pos 0) (grind int_laws)
              (add_coins-Shifts leader_id (pos r.amount))
              λ _. Shifts-after coins_and_fees (Shifts-now coins_and_fees env) λ updated_at.
                Shifts-after coins_and_fees (Shifts-put_reservation coins_and_fees _) λ _.
                  Shifts-after coins_and_fees
                    (ledger-Shifts env r.applicant_id (pos 0) LedgerReason.party_slot_payment)
                    λ _. ledger-Shifts env leader_id (pos r.amount) LedgerReason.party_slot_payment

  pub settle_party_slots-Shifts :
      (room_id leader_id : ℕ) (member_ids : List ℕ)
      → Shifts coins_and_fees (pos 0) (settle_party_slots env room_id leader_id member_ids)
  unfolding settle_party_slots
  settle_party_slots-Shifts room_id leader_id member_ids =
      Shifts-after coins_and_fees (Shifts-gets coins_and_fees _) λ reservations.
        Shifts-after coins_and_fees (Shifts-throw_if coins_and_fees _ _) λ _.
          Shifts-after coins_and_fees (Shifts-player coins_and_fees leader_id) λ _.
            Shifts-after coins_and_fees
              (Shifts-for_each coins_and_fees _ (check_slot-Shifts leader_id))
              λ _. Shifts-for_each coins_and_fees _ (pay_slot-Shifts leader_id)
