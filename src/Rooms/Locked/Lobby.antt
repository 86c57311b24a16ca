-- ===== src/Rooms/Locked/Lobby.antt =====
-- No request of the lobby in server/rooms/RoomManager.ts changes a room that runs.
use vaelmour_game.Prelude.{
  ℕ, ◌≡◌, ◌≢◌, refl, sym, ◌∙◌, subst, Bool, true, false, not, ◌&&◌, List, [], ◌∷◌, All, arith,
}
use vaelmour_game.Prelude.Int.{ℤ}
use vaelmour_game.Prelude.Dict.{Dict, values}
use vaelmour_game.Prelude.Entries.{AllEntries}
use vaelmour_game.Combat.Types.{Character}
use vaelmour_game.Rooms.Handler.{Handler, Void, for_each, when}
use vaelmour_game.Rooms.Types.{RoomPhase, RoomState, Setup}
use vaelmour_game.Rooms.Store.{has_key, is_lobby}
use vaelmour_game.Rooms.Lobby.{
  select_rift_floor, apply_to_party, cancel_application, withdraw_from, accept_applicant,
  reject_applicant, review_application, set_ready,
}
use vaelmour_game.Rooms.Leaving.{is_running, dismiss, leave_lobby, disband, leave_party}
use vaelmour_game.Rooms.Keeping.{
  Keeps, Keeps-known, Keeps-pure, Keeps-bind, Keeps-guard, Keeps-some, Keeps-fail_if, Keeps-or_fail,
  Keeps-for_each, Keeps-when, Keeps-branch, Keeps-try_catch,
}
use vaelmour_game.Rooms.Keeping.Lobby.{reads, told-Keeps, not-false}
use vaelmour_game.Rooms.Locked.{
  IsNamed, Stands, Foreign, change_room-Stands, delete_room-Stands, set_presence-Stands,
  refund_slot-Stands, accept_slot-Stands, reserve_slot-Stands, find_member_room-Stands,
  room_at-Stands,
}

running-not_lobby : (p : RoomPhase) → is_running p ≡ true → is_lobby p ≡ false
running-not_lobby RoomPhase.lobby h = cc
running-not_lobby RoomPhase.combat h = refl
running-not_lobby RoomPhase.post_encounter h = refl
running-not_lobby RoomPhase.finished h = cc
running-not_lobby RoomPhase.failed_run h = cc

clash : {b : Bool} → b ≡ true → b ≡ false → ⊥
clash p q = let e : true ≡ false = sym p ∙ q in cc

second_true : (a b : Bool) → (a && b) ≡ true → b ≡ true
second_true a b h = ground arith

-- A body that is run is known to be asked for.
Keeps-when_known :
    {S : Type 0} {I : S → Type 0} (c : Bool) {body : Handler S Void}
    → (c ≡ true → Keeps I body)
    → Keeps I (when c body)
unfolding when
Keeps-when_known true h = h refl
Keeps-when_known false h = Keeps-pure tt

-- A loop over what has a property.
Keeps-for_all :
    {S A : Type 0} {I : S → Type 0} {P : A → Type 0} {body : A → Handler S Void} (xs : List A)
    → All P xs
    → ((a : A) → P a → Keeps I (body a))
    → Keeps I (for_each body xs)
unfolding for_each
Keeps-for_all [] all h = Keeps-pure tt
Keeps-for_all (x ∷ xs) all h = Keeps-bind (h x all.0) (λ _. Keeps-for_all xs all.1 h)

module _ {F : Type 0} (id : ℕ) (room : RoomState F) (running : is_running room.phase ≡ true)
    (settled : room.applications ≡ []) where
  -- What is not as this room is has another identifier.
  idle-other : (r : RoomState F) → Foreign id room r → is_running r.phase ≡ false → r.id ≢ id
  idle-other r foreign idle here =
      clash (subst (λ x. is_running x.phase ≡ true) (sym (foreign here)) running) idle

  pub lobby-other :
      (r : RoomState F) → Foreign id room r → not (is_lobby r.phase) ≡ false → r.id ≢ id
  lobby-other r foreign lobby here =
      let away : is_lobby r.phase ≡ false =
        subst (λ x. is_lobby x.phase ≡ false) (sym (foreign here))
          (running-not_lobby room.phase running) in
      clash (rw away refl) lobby

  applied-other :
      (p : ℕ) (r : RoomState F) → Foreign id room r → has_key p r.applications ≡ true → r.id ≢ id
  applied-other p r foreign applied here =
      let none_left : has_key p r.applications ≡ false =
        subst (λ x. has_key p x.applications ≡ false) (sym (foreign here)) (rw settled refl) in
      clash applied none_left

  values-Foreign :
      (d : Dict (RoomState F)) → AllEntries (IsNamed id room) d → All (Foreign id room) (values d)
  values-Foreign [] h = tt
  values-Foreign ((k, r) ∷ d) h = (λ here. h.0.1 (sym h.0.0 ∙ here), values-Foreign d h.1)

  module _ (setup : Setup F) where
    dismiss-Stands : (k l p : ℕ) → k ≢ id → Keeps (Stands id room) (dismiss setup k l p)
    unfolding dismiss
    dismiss-Stands k l p other =
        Keeps-bind (Keeps-when _ (refund_slot-Stands id room setup _ k p))
          λ _. change_room-Stands id room k _ other (λ x. refl)

    leave_lobby-Stands :
        (r : RoomState F) (p : ℕ) → r.id ≢ id → Keeps (Stands id room) (leave_lobby setup r p)
    unfolding leave_lobby
    leave_lobby-Stands r p other =
        Keeps-bind (refund_slot-Stands id room setup _ r.id p)
          λ _. Keeps-when _ (Keeps-for_each _ (λ q. dismiss-Stands r.id p q other))

    disband-Stands : (r : RoomState F) → r.id ≢ id → Keeps (Stands id room) (disband setup r)
    unfolding disband
    disband-Stands r other =
        Keeps-bind (Keeps-for_each _ (λ q. refund_slot-Stands id room setup _ r.id q))
          λ _. delete_room-Stands id room r.id other

    pub leave_party-Stands : (p : ℕ) → Keeps (Stands id room) (leave_party setup p)
    unfolding leave_party
    leave_party-Stands p = find_member_room-Stands id room p _ λ o foreign. Keeps-some o _ _ λ r is.
        Keeps-guard (is_running r.phase) _ _ λ idle.
          let other = idle-other r (foreign r is) idle in
          Keeps-bind (Keeps-when _ (leave_lobby-Stands r p other)) λ _.
            Keeps-bind (change_room-Stands id room r.id _ other (λ x. refl)) λ _.
              Keeps-bind (set_presence-Stands id room p _) λ _.
                room_at-Stands id room r.id _ λ o' known. Keeps-some o' _ _ λ left here.
                  let same = (known left here).0 in
                  Keeps-branch _ (disband-Stands left (λ e. other (sym same ∙ e)))
                    (change_room-Stands id room r.id _ other (λ x. refl))

    pub select_rift_floor-Stands :
        (p rift floor : ℕ) → Keeps (Stands id room) (select_rift_floor setup p rift floor)
    unfolding select_rift_floor
    select_rift_floor-Stands p rift floor = find_member_room-Stands id room p _ λ o foreign.
        Keeps-some o _ _ λ r is. Keeps-bind (Keeps-fail_if _ _) λ _.
          Keeps-guard (not (is_lobby r.phase)) _ _ λ lobby.
            let other = lobby-other r (foreign r is) lobby in
            Keeps-bind (Keeps-fail_if _ _) λ _. Keeps-bind (search reads) λ progress.
              Keeps-bind (Keeps-fail_if _ _)
                λ _. change_room-Stands id room r.id _ other (λ x. refl)

    pub set_ready-Stands : (p : ℕ) (b : Bool) → Keeps (Stands id room) (set_ready p b)
    unfolding set_ready
    set_ready-Stands p b = find_member_room-Stands id room p _ λ o foreign. Keeps-some o _ _ λ r is.
        Keeps-bind (Keeps-or_fail _ _) λ m. Keeps-guard (not (is_lobby r.phase)) _ _ λ lobby.
          change_room-Stands id room r.id _ (lobby-other r (foreign r is) lobby) (λ x. refl)

    pub apply_to_party-Stands :
        (p party : ℕ) (n : ℤ) (op : ℕ) → Keeps (Stands id room) (apply_to_party setup p party n op)
    unfolding apply_to_party
    apply_to_party-Stands p party n op = room_at-Stands id room party _ λ o known.
        Keeps-bind (search reads) λ c. Keeps-some o _ _ λ r is.
          Keeps-bind (Keeps-or_fail _ _) λ character.
            Keeps-guard (not (is_lobby r.phase)) _ _ λ lobby. Keeps-bind (search reads) λ old.
              Keeps-bind (Keeps-fail_if _ _) λ _. Keeps-bind (Keeps-fail_if _ _) λ _.
                Keeps-bind
                  (Keeps-try_catch _ (reserve_slot-Stands id room setup _ _ _ _ _) (told-Keeps _ _))
                  λ _.
                    change_room-Stands id room r.id _ (lobby-other r (known r is).1 lobby)
                      (λ x. refl)

    pub cancel_application-Stands :
        (p party : ℕ) → Keeps (Stands id room) (cancel_application setup p party)
    unfolding cancel_application
    cancel_application-Stands p party = room_at-Stands id room party _ λ o known.
        Keeps-some o _ _ λ r is. Keeps-guard (not (has_key p r.applications)) _ _ λ applied.
          let other = applied-other p r (known r is).1 (not-false _ applied) in
          Keeps-bind (change_room-Stands id room r.id _ other (λ x. refl)) λ _.
            Keeps-bind (refund_slot-Stands id room setup _ r.id p)
              λ _. change_room-Stands id room r.id _ other (λ x. refl)

    withdraw_from-Stands :
        (k p : ℕ) (r : RoomState F)
        → Foreign id room r
        → Keeps (Stands id room) (withdraw_from setup k p r)
    unfolding withdraw_from
    withdraw_from-Stands k p r foreign = Keeps-when_known _ λ both.
        let other = applied-other p r foreign (second_true _ _ both) in
        Keeps-bind (change_room-Stands id room r.id _ other (λ x. refl)) λ _.
          Keeps-bind (refund_slot-Stands id room setup _ r.id p)
            λ _. change_room-Stands id room r.id _ other (λ x. refl)

    accept_applicant-Stands :
        (r : RoomState F) (l p : ℕ) (c : Character)
        → r.id ≢ id
        → Keeps (Stands id room) (accept_applicant setup r l p c)
    unfolding accept_applicant
    accept_applicant-Stands r l p c other =
        Keeps-bind (accept_slot-Stands id room setup r.id p l) λ _.
          Keeps-bind (search reads) λ peer.
            Keeps-bind (change_room-Stands id room r.id _ other (λ x. refl)) λ _.
              Keeps-bind (set_presence-Stands id room p _) λ _.
                Keeps-known (All (Foreign id room)) _ _ (λ s i. values-Foreign s.rooms i.0)
                  λ rooms all.
                    Keeps-for_all _ all (λ q foreign. withdraw_from-Stands r.id p q foreign)

    reject_applicant-Stands :
        (r : RoomState F) (p : ℕ) → r.id ≢ id → Keeps (Stands id room) (reject_applicant setup r p)
    unfolding reject_applicant
    reject_applicant-Stands r p other =
        Keeps-bind (refund_slot-Stands id room setup _ r.id p)
          λ _. change_room-Stands id room r.id _ other (λ x. refl)

    pub review_application-Stands :
        (l p : ℕ) (accept : Bool) → Keeps (Stands id room) (review_application setup l p accept)
    unfolding review_application
    review_application-Stands l p accept = find_member_room-Stands id room l _ λ o foreign.
        Keeps-some o _ _ λ r is. Keeps-bind (Keeps-fail_if _ _) λ _.
          Keeps-guard (not (is_lobby r.phase)) _ _ λ lobby.
            let other = lobby-other r (foreign r is) lobby in
            Keeps-bind (Keeps-or_fail _ _) λ c. Keeps-bind (Keeps-fail_if _ _) λ _.
              Keeps-bind (change_room-Stands id room r.id _ other (λ x. refl)) λ _.
                Keeps-branch _ (accept_applicant-Stands r l p c other)
                  (reject_applicant-Stands r p other)
