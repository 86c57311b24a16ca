-- ===== src/Social/Amity.antt =====
-- What the calls of server/social/FriendsService.ts keep.
pub mod Calls
use vaelmour_game.Prelude.{
  ℕ, suc, ◌<◌, ◌≡◌, refl, Bool, true, false, not, ◌&&◌, ◌||◌, Option, none, some, List, [], ◌∷◌,
  ◌==◌, ltb, any, find, remove_first, if◌then◌else◌, arith, Bool-cases, Option-cases, inl, inr,
}
use vaelmour_game.Prelude.Dict.{Dict, lookup, insert, erase, values}
use vaelmour_game.Prelude.Entries.{
  AllEntries, AllEntries-insert, AllEntries-erase, AllEntries-map, AllEntries-zip,
  AllEntries-lookup,
}
use vaelmour_game.Data.{StoredPlayerProfile, includes}
use vaelmour_game.Economy.Types.{Env}
use vaelmour_game.Social.Types.{
  RequestStatus, FriendRequestRecord, FriendshipRecord, PlayerBlockRecord, SocialState, SocialCode,
  SocialResult, done, thrown, awaits,
}
use vaelmour_game.Social.Friends.{
  throws_if, require, canonical_pair, has_block, is_blocked, set_block, is_pair, is_found,
  friendship, is_between, exact_player, ask, send_request, answer, befriend, accept_request,
  respond, unfriend, remove, cancel_between, unfriend_if, put_block, cancel_requests, block,
  unblock, Call, sends, responds, removes, blocks_player, unblocks, perform, settle_social,
  social_transact, converse,
}
use vaelmour_game.Social.Pairs.{
  has_block-set_block, has_block-remove_first, Distinct, Distinct-insert, Distinct-erase, Unpaired,
  find-Unpaired, erase-Unpaired,
}

-- The smaller player comes first, and neither has blocked the other.
abbrev pub IsFriendly : List PlayerBlockRecord → FriendshipRecord → Type 0
IsFriendly blocks f =
    (f.player_low_id < f.player_high_id)
    × (is_blocked blocks f.player_low_id f.player_high_id ≡ false)

-- A request to another player; neither has blocked the other while it awaits an answer.
abbrev pub IsProper : List PlayerBlockRecord → FriendRequestRecord → Type 0
IsProper blocks r =
    ((r.requester_id == r.receiver_id) ≡ false)
    × ((awaits r.status && is_blocked blocks r.requester_id r.receiver_id) ≡ false)

-- Every friendship stands under its identifier, no two are of the same players, each is of two
-- players of which neither has blocked the other, and so is each request that awaits an answer.
pub record Amity (s : SocialState) : Type 0 where
  pub named : AllEntries (λ k f. f.id ≡ k) s.friendships
  pub distinct : Distinct s.friendships
  pub friendly : AllEntries (λ _ f. IsFriendly s.blocks f) s.friendships
  pub proper : AllEntries (λ _ r. IsProper s.blocks r) s.friend_requests

abbrev pub Holds : (SocialState → Type 0) → SocialResult → Type 0
Holds Q (done s) = Q s
Holds Q (thrown _) = Unit

module _ (Q : SocialState → Type 0) where
  pub throws_if-Holds :
      (b : Bool) (code : SocialCode) (rest : SocialResult)
      → (b ≡ false → Holds Q rest)
      → Holds Q (throws_if b code rest)
  throws_if-Holds true code rest h = tt
  throws_if-Holds false code rest h = h refl

  pub require-Holds :
      {A : Type 0} (o : Option A) (code : SocialCode) (rest : A → SocialResult)
      → ((a : A) → o ≡ some a → Holds Q (rest a))
      → Holds Q (require o code rest)
  require-Holds none code rest h = tt
  require-Holds (some a) code rest h = h a refl

-- The pair of two different players is in order, and what is symmetric holds of it.
pub canonical_lt : (a b : ℕ) → (a == b) ≡ false → (canonical_pair a b).0 < (canonical_pair a b).1
canonical_lt a b h = ground arith

pub ||_swap : (a b : Bool) → (a || b) ≡ false → (b || a) ≡ false
||_swap a b h = ground arith

pub neither : (a b : Bool) → (a || b) ≡ false → (a ≡ false) × (b ≡ false)
neither a b h = (ground arith, ground arith)

pub canonical_blocked :
    (blocks : List PlayerBlockRecord) (a b : ℕ)
    → is_blocked blocks a b ≡ false
    → is_blocked blocks (canonical_pair a b).0 (canonical_pair a b).1 ≡ false
canonical_blocked blocks a b h = elim (Bool-cases (ltb a b)) [
  | inl before ↦ rw before h
  | inr after ↦ rw after (||_swap (has_block b a blocks) (has_block a b blocks) h)
]

pub canonical_of_lt : (a b : ℕ) → a < b → canonical_pair a b ≡ (a, b)
canonical_of_lt a b h = let before : ltb a b ≡ true = ground arith in rw before refl

pub is_blocked-set_block :
    (new : PlayerBlockRecord) (a b : ℕ) (bs : List PlayerBlockRecord)
    → is_blocked bs a b ≡ false
    → ((new.blocker_id == b) && (new.blocked_id == a)) ≡ false
    → ((new.blocker_id == a) && (new.blocked_id == b)) ≡ false
    → is_blocked (set_block new bs) a b ≡ false
is_blocked-set_block new a b bs h p q =
    rw (has_block-set_block new b a bs, has_block-set_block new a b bs, p, q) (ground arith)

pub is_blocked-remove_first :
    (p : PlayerBlockRecord → Bool) (a b : ℕ) (bs : List PlayerBlockRecord)
    → is_blocked bs a b ≡ false
    → is_blocked (remove_first p bs) a b ≡ false
is_blocked-remove_first p a b bs h =
    let (there, here) = neither (has_block b a bs) (has_block a b bs) h in
    rw (has_block-remove_first p b a bs there, has_block-remove_first p a b bs here) refl

-- A block leaves a friendship of other players as it was.
pub set_block-IsFriendly :
    (new : PlayerBlockRecord) (bs : List PlayerBlockRecord) (f : FriendshipRecord)
    → IsFriendly bs f
    → is_pair
        (canonical_pair new.blocker_id new.blocked_id).0
        (canonical_pair new.blocker_id new.blocked_id).1
        f
      ≡ false
    → IsFriendly (set_block new bs) f
set_block-IsFriendly new bs f h other = (
  h.0,
  is_blocked-set_block new f.player_low_id f.player_high_id bs h.1 (ground arith) (ground arith),
)

-- A block leaves a request of other players as it was.
pub set_block-IsProper :
    (new : PlayerBlockRecord) (bs : List PlayerBlockRecord) (r : FriendRequestRecord)
    → is_between new.blocker_id new.blocked_id r ≡ false
    → (awaits r.status && is_blocked bs r.requester_id r.receiver_id) ≡ false
    → (awaits r.status && is_blocked (set_block new bs) r.requester_id r.receiver_id) ≡ false
set_block-IsProper new bs r other h = elim (Bool-cases (awaits r.status)) [
  | inl open_still ↦
      let free : is_blocked bs r.requester_id r.receiver_id ≡ false = rw open_still at h in
      let aside : (((r.requester_id == new.blocker_id) && (r.receiver_id == new.blocked_id))
            || ((r.requester_id == new.blocked_id) && (r.receiver_id == new.blocker_id)))
          ≡ false =
        rw open_still at other in
      rw open_still (
        is_blocked-set_block new r.requester_id r.receiver_id bs free (ground arith) (ground arith))
  | inr closed ↦ rw closed refl
]

pub cancel_between-IsProper :
    (new : PlayerBlockRecord) (bs : List PlayerBlockRecord) (d : Dict FriendRequestRecord)
    → AllEntries (λ _ r. IsProper bs r) d
    → AllEntries
        (λ _ r. IsProper (set_block new bs) r)
        (cancel_between new.blocker_id new.blocked_id d)
unfolding awaits
cancel_between-IsProper new bs [] h = tt
cancel_between-IsProper new bs ((id, r) ∷ d) h =
    elim (Bool-cases (is_between new.blocker_id new.blocked_id r)) [
      | inl hit ↦ rw hit ((h.0.0, refl), cancel_between-IsProper new bs d h.1)
      | inr miss ↦
          rw miss
            ((h.0.0, set_block-IsProper new bs r miss h.0.1), cancel_between-IsProper new bs d h.1)
    ]

pub answer-Amity :
    (request_id : ℕ) (request : FriendRequestRecord) (status : RequestStatus) (s : SocialState)
    → Amity s
    → lookup request_id s.friend_requests ≡ some request
    → awaits status ≡ false
    → Amity (answer request_id request status s)
answer-Amity request_id request status s h found settled = record {
  named = h.named;
  distinct = h.distinct;
  friendly = h.friendly;
  proper =
      let old =
        AllEntries-lookup (λ _ r. IsProper s.blocks r) request_id s.friend_requests request h.proper
          found in
      AllEntries-insert (λ _ r. IsProper s.blocks r) request_id (record request { status = status })
        s.friend_requests (old.0, rw settled refl) h.proper;
}

pub unfriend-Amity : (f : FriendshipRecord) (s : SocialState) → Amity s → Amity (unfriend f s)
unfriend-Amity f s h = record {
  named = AllEntries-erase (λ k g. g.id ≡ k) f.id s.friendships h.named;
  distinct = Distinct-erase f.id s.friendships h.distinct;
  friendly = AllEntries-erase (λ _ g. IsFriendly s.blocks g) f.id s.friendships h.friendly;
  proper = h.proper;
}

pub remove-Amity :
    (player_id friend_id : ℕ) (s : SocialState)
    → Amity s
    → Holds Amity (remove player_id friend_id s)
unfolding remove
remove-Amity player_id friend_id s h =
    require-Holds Amity (friendship s player_id friend_id) _ _ λ f _. unfriend-Amity f s h

-- What a request that awaits an answer needs may change where less is blocked.
pub closed_or_free :
    (status : RequestStatus) {a b : Bool}
    → (a ≡ false → b ≡ false)
    → (awaits status && a) ≡ false
    → (awaits status && b) ≡ false
closed_or_free status f h = elim (Bool-cases (awaits status)) [
  | inl waiting ↦ rw waiting (f (rw waiting at h))
  | inr closed ↦ rw closed refl
]

pub unblock-Amity :
    (player_id target_id : ℕ) (s : SocialState)
    → Amity s
    → Holds Amity (unblock player_id target_id s)
unfolding unblock
unblock-Amity player_id target_id s h =
    let gone =
      λ (b : PlayerBlockRecord). (b.blocker_id == player_id) && (b.blocked_id == target_id) in
    record {
      named = h.named;
      distinct = h.distinct;
      friendly =
          AllEntries-map
            (λ _ f p.
              (p.0, is_blocked-remove_first gone f.player_low_id f.player_high_id s.blocks p.1))
            s.friendships h.friendly;
      proper =
          AllEntries-map
            (λ _ r p. (
              p.0,
              closed_or_free r.status
                  (λ free. is_blocked-remove_first gone r.requester_id r.receiver_id s.blocks free)
                  p.1,
            ))
            s.friend_requests h.proper;
    }
