-- ===== src/Social/Friends.antt =====
-- server/social/FriendsService.ts with server/social/social-utils.ts: the requests that change the
-- state, and the transaction around them. What the service answers with, the snapshot, is not here.
use vaelmour_game.Prelude.{
  ℕ, suc, Bool, true, false, not, ◌&&◌, ◌||◌, Option, none, some, List, [], ◌∷◌, ◌==◌, ltb, any,
  find, remove_first, if◌then◌else◌,
}
use vaelmour_game.Prelude.Dict.{Dict, lookup, insert, erase, values}
use vaelmour_game.Data.{StoredPlayerProfile, includes}
use vaelmour_game.Economy.Types.{Env}
use vaelmour_game.Economy.Trades.{find_player_by_name}
use vaelmour_game.Social.Types.{
  RequestStatus, FriendRequestRecord, FriendshipRecord, PlayerBlockRecord, SocialState, SocialCode,
  SocialResult, done, thrown, awaits,
}

-- `if (condition) throw`, before the rest
abbrev pub throws_if : Bool → SocialCode → SocialResult → SocialResult
throws_if true code rest = thrown code
throws_if false code rest = rest

-- `if (!value) throw`, before the rest
abbrev pub require {ℓ} : {A : Type ℓ} → Option A → SocialCode → (A → SocialResult) → SocialResult
require none code rest = thrown code
require (some a) code rest = rest a

abbrev pub canonical_pair : ℕ → ℕ → ℕ × ℕ
canonical_pair a b = if ltb a b then (a, b) else (b, a)

-- `blocks.has(`${blocker}:${blocked}`)`
abbrev pub has_block : ℕ → ℕ → List PlayerBlockRecord → Bool
has_block blocker blocked blocks =
    any (λ b. (b.blocker_id == blocker) && (b.blocked_id == blocked)) blocks

abbrev pub is_blocked : List PlayerBlockRecord → ℕ → ℕ → Bool
is_blocked blocks sender_id receiver_id =
    has_block receiver_id sender_id blocks || has_block sender_id receiver_id blocks

-- `blocks.set`
abbrev pub set_block : PlayerBlockRecord → List PlayerBlockRecord → List PlayerBlockRecord
set_block new [] = new ∷ []
set_block new (b ∷ bs) =
    if (b.blocker_id == new.blocker_id) && (b.blocked_id == new.blocked_id)
    then new ∷ bs
    else b ∷ set_block new bs

abbrev pub is_pair : ℕ → ℕ → FriendshipRecord → Bool
is_pair low high value = (value.player_low_id == low) && (value.player_high_id == high)

-- `friendship`
unfoldable pub friendship : SocialState → ℕ → ℕ → Option FriendshipRecord
friendship s a b =
    find (is_pair (canonical_pair a b).0 (canonical_pair a b).1) (values s.friendships)

abbrev pub is_found {ℓ} : {A : Type ℓ} → Option A → Bool
is_found none = false
is_found (some _) = true

-- A request that awaits its answer, between these two players
abbrev pub is_between : ℕ → ℕ → FriendRequestRecord → Bool
is_between a b value =
    awaits value.status
    && (((value.requester_id == a) && (value.receiver_id == b))
        || ((value.requester_id == b) && (value.receiver_id == a)))

-- `request.status = …`, on the object in the map
abbrev pub answer : ℕ → FriendRequestRecord → RequestStatus → SocialState → SocialState
answer request_id request status s = record s {
  friend_requests = insert request_id (record request { status = status }) s.friend_requests;
}

-- `friendships.delete(friendship.id)`
abbrev pub unfriend : FriendshipRecord → SocialState → SocialState
unfriend f s = record s { friendships = erase f.id s.friendships }

unfoldable pub remove : ℕ → ℕ → SocialState → SocialResult
remove player_id friend_id s =
    require (friendship s player_id friend_id) SocialCode.friendship_not_found
      λ f. done (unfriend f s)

-- The loop over the requests
abbrev pub cancel_between : ℕ → ℕ → Dict FriendRequestRecord → Dict FriendRequestRecord
cancel_between a b [] = []
cancel_between a b ((id, r) ∷ d) =
    let rest = cancel_between a b d in
    if is_between a b r
    then (id, record r { status = RequestStatus.cancelled }) ∷ rest
    else (id, r) ∷ rest

abbrev pub unfriend_if : Option FriendshipRecord → SocialState → SocialState
unfriend_if none s = s
unfriend_if (some f) s = unfriend f s

abbrev pub cancel_requests : ℕ → ℕ → SocialState → SocialState
cancel_requests a b s = record s { friend_requests = cancel_between a b s.friend_requests }

unfoldable pub unblock : ℕ → ℕ → SocialState → SocialResult
unblock player_id target_id s = done (record s {
  blocks = remove_first (λ b. (b.blocker_id == player_id) && (b.blocked_id == target_id)) s.blocks;
})

-- A call of one of the methods. The key of its transaction names the kind of the operation and
-- the player, so the model leaves it to the caller.
pub data Call : Type 0 where
  sends : ℕ → ℕ → Call
  responds : ℕ → ℕ → Bool → Call
  removes blocks_player unblocks : ℕ → ℕ → Call

-- `operations.add(operationKey)`, where nothing was thrown
abbrev pub settle_social : ℕ → SocialState → SocialResult → SocialState
settle_social key s (thrown _) = s
settle_social key s (done s') = record s' { operations = key ∷ s.operations }

module _ (env : Env) where
  -- `exactPlayer`
  abbrev pub exact_player : SocialState → ℕ → Option StoredPlayerProfile
  exact_player s name = find_player_by_name env (values s.players) name

  abbrev pub ask : ℕ → ℕ → SocialState → SocialState
  ask player_id target_id s =
      let id = env.random_uuid s.draws in
      record s {
        friend_requests =
            insert id
              (record {
                id = id;
                requester_id = player_id;
                receiver_id = target_id;
                status = RequestStatus.pending;
                created_at = env.now s.ticks;
              })
              s.friend_requests;
        draws = suc s.draws;
        ticks = suc s.ticks;
      }

  unfoldable pub send_request : ℕ → ℕ → SocialState → SocialResult
  send_request player_id target_name s =
      require (lookup player_id s.players) SocialCode.player_not_found λ _.
        require (exact_player s target_name) SocialCode.player_not_found λ target.
          throws_if (target.player_id == player_id) SocialCode.cannot_friend_self (
            throws_if (is_blocked s.blocks player_id target.player_id) SocialCode.player_blocked (
              throws_if (is_found (friendship s player_id target.player_id))
                SocialCode.already_friends
                (throws_if (any (is_between player_id target.player_id) (values s.friend_requests))
                  SocialCode.friend_request_exists (done (ask player_id target.player_id s)))))

  -- The friendship is made, if it is not there.
  abbrev pub befriend : ℕ → ℕ → Option FriendshipRecord → SocialState → SocialState
  befriend low high (some _) s = s
  befriend low high none s =
      let id = env.random_uuid s.draws in
      record s {
        friendships =
            insert id
              (record {
                id = id;
                player_low_id = low;
                player_high_id = high;
                created_at = env.now s.ticks;
              })
              s.friendships;
        draws = suc s.draws;
        ticks = suc s.ticks;
      }

  abbrev pub accept_request : ℕ → FriendRequestRecord → SocialState → SocialState
  accept_request request_id request s =
      let (low, high) = canonical_pair request.requester_id request.receiver_id in
      let answered = answer request_id request RequestStatus.accepted s in
      befriend low high (friendship answered low high) answered

  unfoldable pub respond : ℕ → ℕ → Bool → SocialState → SocialResult
  respond player_id request_id accept s =
      require (lookup request_id s.friend_requests) SocialCode.friend_request_not_found λ request.
        throws_if (not (request.receiver_id == player_id) || not (awaits request.status))
          SocialCode.friend_request_not_found
          (elim accept [
            | false ↦ done (answer request_id request RequestStatus.declined s)
            | true ↦
                throws_if (is_blocked s.blocks request.requester_id player_id)
                  SocialCode.player_blocked (done (accept_request request_id request s))
          ])

  abbrev pub put_block : ℕ → ℕ → SocialState → SocialState
  put_block player_id target_id s = record s {
    blocks =
        set_block
          (record { blocker_id = player_id; blocked_id = target_id; created_at = env.now s.ticks })
          s.blocks;
    ticks = suc s.ticks;
  }

  unfoldable pub block : ℕ → ℕ → SocialState → SocialResult
  block player_id target_name s =
      require (exact_player s target_name) SocialCode.player_not_found λ target.
        throws_if (target.player_id == player_id) SocialCode.cannot_block_self (
          let blocked = put_block player_id target.player_id s in
          done (
            cancel_requests player_id target.player_id
              (unfriend_if (friendship blocked player_id target.player_id) blocked)))

  abbrev pub perform : Call → SocialState → SocialResult
  perform (sends player_id name) = send_request player_id name
  perform (responds player_id request_id accept) = respond player_id request_id accept
  perform (removes player_id friend_id) = remove player_id friend_id
  perform (blocks_player player_id name) = block player_id name
  perform (unblocks player_id target_id) = unblock player_id target_id

  unfoldable pub social_transact : ℕ → Call → SocialState → SocialState
  social_transact key call s =
      if includes s.operations key then s else settle_social key s (perform call s)

  -- A history of calls, each under its key
  unfoldable pub converse : List (ℕ × Call) → SocialState → SocialState
  converse [] s = s
  converse ((key, call) ∷ calls) s = converse calls (social_transact key call s)
