-- ===== src/Economy/Books/Slots.antt =====
-- The paid party slots leave the book of orders alone.
use vaelmour_game.Prelude.{ℕ, zero, suc, none, List, find}
use vaelmour_game.Prelude.Int.{ℤ, pos, negsuc}
use vaelmour_game.Economy.Types.{Env, PartySlotReservation}
use vaelmour_game.Economy.Books.{
  KeepsBook, KeepsBook-after, KeepsBook-gets, KeepsBook-option, KeepsBook-throw, KeepsBook-pure,
  KeepsBook-ledger, book_rules,
}
use vaelmour_game.Economy.Slots.{
  reserve_party_slot, accept_party_slot, refund, refund_party_slot, cleanup_orphaned_party_slots,
  check_slot, pay_slot, settle_party_slots,
}

module _ (env : Env) where
  pub reserve_party_slot-KeepsBook :
      (room_id applicant_id leader_id : ℕ) (amount : ℤ)
      → KeepsBook (reserve_party_slot env room_id applicant_id leader_id amount)
  unfolding reserve_party_slot
  reserve_party_slot-KeepsBook room_id applicant_id leader_id (negsuc _) = KeepsBook-throw _
  reserve_party_slot-KeepsBook room_id applicant_id leader_id (pos zero) = KeepsBook-pure none
  reserve_party_slot-KeepsBook room_id applicant_id leader_id (pos (suc n)) =
      search (book_rules, KeepsBook-ledger env) depth 20

  refund-KeepsBook : (r : PartySlotReservation) → KeepsBook (refund env r)
  unfolding refund
  refund-KeepsBook r = search (book_rules, KeepsBook-ledger env) depth 20

  pub accept_party_slot-KeepsBook :
      (room_id applicant_id leader_id : ℕ)
      → KeepsBook (accept_party_slot env room_id applicant_id leader_id)
  unfolding accept_party_slot
  accept_party_slot-KeepsBook room_id applicant_id leader_id =
      KeepsBook-after (KeepsBook-gets _) λ reservations.
        KeepsBook-option (find _ reservations) _ _ (KeepsBook-pure tt)
          λ r. search book_rules depth 10

  pub refund_party_slot-KeepsBook :
      (room_id applicant_id : ℕ) → KeepsBook (refund_party_slot env room_id applicant_id)
  unfolding refund_party_slot
  refund_party_slot-KeepsBook room_id applicant_id =
      KeepsBook-after (KeepsBook-gets _) λ reservations.
        KeepsBook-option (find _ reservations) _ _ (KeepsBook-pure tt) refund-KeepsBook

  pub cleanup_orphaned_party_slots-KeepsBook : KeepsBook (cleanup_orphaned_party_slots env)
  unfolding cleanup_orphaned_party_slots
  cleanup_orphaned_party_slots-KeepsBook = search (book_rules, refund-KeepsBook) depth 20

  pub settle_party_slots-KeepsBook :
      (room_id leader_id : ℕ) (member_ids : List ℕ)
      → KeepsBook (settle_party_slots env room_id leader_id member_ids)
  unfolding settle_party_slots check_slot pay_slot
  settle_party_slots-KeepsBook room_id leader_id member_ids =
      search (book_rules, KeepsBook-ledger env) depth 30
