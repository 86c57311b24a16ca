-- ===== src/Rooms/Keeping/Laws.antt =====
-- What an invariant of the manager must satisfy, so that every handler of server/rooms/RoomManager.ts
-- keeps it.
use vaelmour_game.Prelude.{ℕ, ◌≡◌, refl, Bool, true, false, none, some, List, [], ◌∷◌, arith}
use vaelmour_game.Prelude.Int.{ℤ}
use vaelmour_game.Prelude.Dict.{Dict, erase, values}
use vaelmour_game.Prelude.{find}
use vaelmour_game.Data.{PersonalLoot}
use vaelmour_game.Combat.Types.{Character}
use vaelmour_game.Economy.Types.{DirectTradeStatus}
use vaelmour_game.Economy.Service.{Request}
use vaelmour_game.Economy.Repository.{DurableExpeditionStart}
use vaelmour_game.Economy.TradeEnd.{close_trade}
use vaelmour_game.Economy.Repository.Profiles.{transact}
use vaelmour_game.Players.Attempt.{map_done}
use vaelmour_game.Players.Items.{consume_item}
use vaelmour_game.Combat.Types.{Float}
use vaelmour_game.Rooms.Handler.{◌>>=◌, Handler}
use vaelmour_game.Rooms.Types.{PresenceStatus, RoomMember, RoomState, Manager, RefundReason, Setup}
use vaelmour_game.Rooms.Store.{
  has_key, has_member, change_at, map_values, is_lobby, change_room, put_room, delete_room,
  set_identity, set_peer, drop_peer, set_presence, put_availability, stop_accepting, set_randoms,
  take_draw, transact_economy, change_profile, now, reserve_slot, accept_slot, refund_slot,
}
use vaelmour_game.Rooms.Lobby.{new_room}
use vaelmour_game.Rooms.Start.{start_paid}
use vaelmour_game.Rooms.Rewards.{award_profile, complete_floor, extract_profile}
use vaelmour_game.Rooms.Events.{economy}
use vaelmour_game.Rooms.Keeping.{Keeps}

-- A write that neither renames a room, nor takes it back to the lobby, nor lets anyone in.
pub record IsHarmless {F : Type 0} (f : RoomState F → RoomState F) : Type 0 where
  pub same_id : (r : RoomState F) → (f r).id ≡ r.id
  pub stays_started : (r : RoomState F) → is_lobby r.phase ≡ false → is_lobby (f r).phase ≡ false
  pub lets_none_in :
      (r : RoomState F) (j : ℕ) → has_key j r.members ≡ false → has_key j (f r).members ≡ false

pub has_key-erase :
    {V : Type 0} (j k : ℕ) (d : Dict V) → has_key j d ≡ false → has_key j (erase k d) ≡ false
has_key-erase j k [] h = refl
has_key-erase j k ((i, v) ∷ d) h = ground (arith, has_key-erase j k d)

pub has_key-change_at :
    {V : Type 0} (j k : ℕ) (f : V → V) (d : Dict V)
    → has_key j d ≡ false
    → has_key j (change_at k f d) ≡ false
has_key-change_at j k f [] h = refl
has_key-change_at j k f ((i, v) ∷ d) h = ground (arith, has_key-change_at j k f d)

pub has_key-map_values :
    {V W : Type 0} (j : ℕ) (f : V → W) (d : Dict V)
    → has_key j d ≡ false
    → has_key j (map_values f d) ≡ false
has_key-map_values j f [] h = refl
has_key-map_values j f ((i, v) ∷ d) h = ground (arith, has_key-map_values j f d)

-- A write to other fields, or to the members that are there.
pub IsHarmless-plain :
    {F : Type 0} {f : RoomState F → RoomState F}
    → ((r : RoomState F) → (f r).id ≡ r.id)
    → ((r : RoomState F) → (f r).phase ≡ r.phase)
    → ((r : RoomState F) → (f r).members ≡ r.members)
    → IsHarmless f
IsHarmless-plain same phase members = record {
  same_id = same;
  stays_started = λ r h. rw (phase r) h;
  lets_none_in = λ r j h. rw (members r) h;
}

module _ (fl : Float) (setup : Setup fl.F) where
  open fl use {F}

  -- `Open room` is what the invariant gives of a room that was found in the lobby, `Fresh draw` of an
  -- answer of `randomUUID` that is drawn.
  pub record Laws (I : Manager F → Type 0) (Open : RoomState F → Type 0) (Fresh : ℕ → Type 0)
      : Type 1 where
    pub identity : (id : ℕ) (c : Character) → Keeps I (set_identity id c)
    pub peer : (id p : ℕ) → Keeps I (set_peer id p)
    pub no_peer : (id : ℕ) → Keeps I (drop_peer id)
    pub presence : (id : ℕ) (p : PresenceStatus) → Keeps I (set_presence id p)
    pub available : (id : ℕ) (a b : Bool) → Keeps I (put_availability id a b)
    pub closing : Keeps I stop_accepting
    pub randoms : (n : ℕ) → Keeps I (set_randoms n)
    pub drawing : Keeps I take_draw
    pub clock : Keeps I (now setup)
    pub deleting : (id : ℕ) → Keeps I (delete_room id)
    pub drawing_fresh :
        {A : Type 0} (f : ℕ → Handler (Manager F) A)
        → ((draw : ℕ) → Fresh draw → Keeps I (f draw))
        → Keeps I (take_draw >>= f)
    pub creating :
        (draw player : ℕ) (m : RoomMember)
        → Fresh draw
        → Keeps I (put_room (new_room (setup.room_id draw) setup.first_rift player m))
    pub harmless :
        (id : ℕ) {f : RoomState F → RoomState F} → IsHarmless f → Keeps I (change_room id f)
    pub opening :
        (room : RoomState F) (f : RoomState F → RoomState F)
        → Open room
        → ((r : RoomState F) → (f r).id ≡ r.id)
        → Keeps I (change_room room.id f)
    pub found_open :
        (s : Manager F) (p : ℕ) (room : RoomState F)
        → I s
        → find (has_member p) (values s.rooms) ≡ some room
        → is_lobby room.phase ≡ true
        → Open room
    pub reserving : (o a l : ℕ) (n : ℤ) (k : ℕ) → Keeps I (reserve_slot setup o a l n k)
    pub accepting : (o a l : ℕ) → Keeps I (accept_slot setup o a l)
    pub refunding : (why : RefundReason) (o a : ℕ) → Keeps I (refund_slot setup why o a)
    pub cancelling :
        (key p t : ℕ)
        → Keeps I (transact_economy key (close_trade setup.env p t DirectTradeStatus.cancelled))
    pub starting :
        (m : DurableExpeditionStart) (l : ℕ) (ms : List ℕ) → Keeps I (start_paid fl setup m l ms)
    pub awarding : (p o i l x c : ℕ) → Keeps I (change_profile (award_profile setup p o i l x c))
    pub completing : (p o r f : ℕ) → Keeps I (change_profile (complete_floor setup p o r f))
    pub extracting :
        (p o : ℕ) (b : Bool) (l : PersonalLoot)
        → Keeps I (change_profile (extract_profile setup p o b l))
    pub drinking :
        (p key item : ℕ)
        → Keeps I (
            change_profile (
              transact setup.env p key none
                (λ w. map_done (λ q. record w { profile = q }) (consume_item item 1 w.profile))))
    pub requesting : (key : ℕ) (r : Request) → Keeps I (economy fl setup key r)
