-- ===== src/Social/Amity/Calls.antt =====
-- Each call of server/social/FriendsService.ts keeps the friends, the blocks and the requests in order.
use vaelmour_game.Prelude.{
  ℕ, ◌<◌, ◌≡◌, refl, Bool, true, false, not, ◌||◌, Option, none, some, List, [], ◌∷◌, ◌==◌, any,
  arith, Bool-cases, inl, inr,
}
use vaelmour_game.Prelude.Dict.{Dict, lookup, erase, values}
use vaelmour_game.Prelude.Entries.{AllEntries-insert, AllEntries-zip, AllEntries-lookup}
use vaelmour_game.Data.{includes}
use vaelmour_game.Economy.Types.{Env}
use vaelmour_game.Social.Types.{
  RequestStatus, FriendRequestRecord, FriendshipRecord, PlayerBlockRecord, SocialState,
  SocialResult, done, thrown, awaits,
}
use vaelmour_game.Social.Friends.{
  canonical_pair, is_blocked, is_found, friendship, is_between, exact_player, send_request, answer,
  befriend, accept_request, respond, unfriend_if, put_block, cancel_requests, block, Call, sends,
  responds, removes, blocks_player, unblocks, perform, settle_social, social_transact, converse,
}
use vaelmour_game.Social.Pairs.{Distinct-insert, Unpaired, find-Unpaired, erase-Unpaired}
use vaelmour_game.Social.Amity.{
  Amity, Holds, IsFriendly, IsProper, answer-Amity, cancel_between-IsProper, canonical_blocked,
  canonical_lt, canonical_of_lt, neither, remove-Amity, require-Holds, set_block-IsFriendly,
  throws_if-Holds, unblock-Amity, unfriend-Amity,
}

module _ (env : Env) where
  send_request-Amity :
      (player_id name : ℕ) (s : SocialState)
      → Amity s
      → Holds Amity (send_request env player_id name s)
  unfolding send_request awaits
  send_request-Amity player_id name s h =
      require-Holds Amity (lookup player_id s.players) _ _ λ _ _.
        require-Holds Amity (exact_player env s name) _ _ λ target _.
          throws_if-Holds Amity (target.player_id == player_id) _ _ λ other.
            throws_if-Holds Amity (is_blocked s.blocks player_id target.player_id) _ _ λ free.
              throws_if-Holds Amity (is_found (friendship s player_id target.player_id)) _ _ λ _.
                throws_if-Holds Amity
                  (any (is_between player_id target.player_id) (values s.friend_requests)) _ _
                  λ _. record {
                    named = h.named;
                    distinct = h.distinct;
                    friendly = h.friendly;
                    proper =
                        AllEntries-insert (λ _ r. IsProper s.blocks r) (env.random_uuid s.draws) _
                          s.friend_requests (ground arith, free) h.proper;
                  }

  befriend-Amity :
      (low high : ℕ) (o : Option FriendshipRecord) (s : SocialState)
      → low < high
      → is_blocked s.blocks low high ≡ false
      → (o ≡ none → Unpaired low high s.friendships)
      → Amity s
      → Amity (befriend env low high o s)
  befriend-Amity low high (some f) s lt free new h = h
  befriend-Amity low high none s lt free new h = record {
    named =
        AllEntries-insert (λ k f. f.id ≡ k) (env.random_uuid s.draws) _ s.friendships refl h.named;
    distinct = Distinct-insert (env.random_uuid s.draws) _ s.friendships (new refl) h.distinct;
    friendly =
        AllEntries-insert (λ _ f. IsFriendly s.blocks f) (env.random_uuid s.draws) _ s.friendships
          (lt, free) h.friendly;
    proper = h.proper;
  }

  friendship-Unpaired :
      (low high : ℕ) (s : SocialState)
      → low < high
      → friendship s low high ≡ none
      → Unpaired low high s.friendships
  unfolding friendship
  friendship-Unpaired low high s lt e =
      find-Unpaired low high s.friendships (rw (canonical_of_lt low high lt) at e)

  accept_request-Amity :
      (request_id : ℕ) (request : FriendRequestRecord) (s : SocialState)
      → Amity s
      → lookup request_id s.friend_requests ≡ some request
      → is_blocked s.blocks request.requester_id request.receiver_id ≡ false
      → Amity (accept_request env request_id request s)
  unfolding awaits
  accept_request-Amity request_id request s h found free =
      let old =
        AllEntries-lookup (λ _ r. IsProper s.blocks r) request_id s.friend_requests request h.proper
          found in
      let answered = answer request_id request RequestStatus.accepted s in
      let low = (canonical_pair request.requester_id request.receiver_id).0 in
      let high = (canonical_pair request.requester_id request.receiver_id).1 in
      let before = canonical_lt request.requester_id request.receiver_id old.0 in
      befriend-Amity low high (friendship answered low high) answered before
        (canonical_blocked s.blocks request.requester_id request.receiver_id free)
        (friendship-Unpaired low high answered before)
        (answer-Amity request_id request RequestStatus.accepted s h found refl)

  respond-Amity :
      (player_id request_id : ℕ) (accept : Bool) (s : SocialState)
      → Amity s
      → Holds Amity (respond env player_id request_id accept s)
  unfolding respond awaits
  respond-Amity player_id request_id false s h =
      require-Holds Amity (lookup request_id s.friend_requests) _ _ λ request found.
        throws_if-Holds Amity
          (not (request.receiver_id == player_id) || not (awaits request.status)) _ _
          λ _. answer-Amity request_id request RequestStatus.declined s h found refl
  respond-Amity player_id request_id true s h =
      require-Holds Amity (lookup request_id s.friend_requests) _ _ λ request found.
        throws_if-Holds Amity
          (not (request.receiver_id == player_id) || not (awaits request.status)) _ _
          λ mine.
            throws_if-Holds Amity (is_blocked s.blocks request.requester_id player_id) _ _ λ free.
              let (own, _) = neither (not (request.receiver_id == player_id)) _ mine in
              let me : request.receiver_id ≡ player_id = ground arith in
              accept_request-Amity request_id request s h found (rw me free)

  -- Without a friendship of the two, the block of one by the other fits.
  cancel_requests-Amity :
      (player_id target_id : ℕ) (s : SocialState) (d : Dict FriendshipRecord)
      → Amity (record s { friendships = d })
      → Unpaired (canonical_pair player_id target_id).0 (canonical_pair player_id target_id).1 d
      → Amity (
          cancel_requests player_id target_id
            (record (put_block env player_id target_id s) { friendships = d }))
  cancel_requests-Amity player_id target_id s d h u =
      let new : PlayerBlockRecord = record {
        blocker_id = player_id;
        blocked_id = target_id;
        created_at = env.now s.ticks;
      } in
      record {
        named = h.named;
        distinct = h.distinct;
        friendly =
            AllEntries-zip (λ _ f p q. set_block-IsFriendly new s.blocks f p q) d h.friendly u;
        proper = cancel_between-IsProper new s.blocks s.friend_requests h.proper;
      }

  unfriend_if-Amity :
      (player_id target_id : ℕ) (s : SocialState) (o : Option FriendshipRecord)
      → friendship s player_id target_id ≡ o
      → Amity s
      → Amity (
          cancel_requests player_id target_id (unfriend_if o (put_block env player_id target_id s)))
  unfolding friendship
  unfriend_if-Amity player_id target_id s none e h =
      cancel_requests-Amity player_id target_id s s.friendships h
        (find-Unpaired _ _ s.friendships e)
  unfriend_if-Amity player_id target_id s (some f) e h =
      cancel_requests-Amity player_id target_id s (erase f.id s.friendships) (unfriend-Amity f s h)
        (erase-Unpaired _ _ s.friendships f h.named h.distinct e)

  block-Amity :
      (player_id name : ℕ) (s : SocialState) → Amity s → Holds Amity (block env player_id name s)
  unfolding block friendship
  block-Amity player_id name s h = require-Holds Amity (exact_player env s name) _ _ λ target _.
      throws_if-Holds Amity (target.player_id == player_id) _ _
        λ _. unfriend_if-Amity player_id target.player_id s _ refl h

  perform-Amity : (call : Call) (s : SocialState) → Amity s → Holds Amity (perform env call s)
  perform-Amity (sends player_id name) s h = send_request-Amity player_id name s h
  perform-Amity (responds player_id request_id accept) s h =
      respond-Amity player_id request_id accept s h
  perform-Amity (removes player_id friend_id) s h = remove-Amity player_id friend_id s h
  perform-Amity (blocks_player player_id name) s h = block-Amity player_id name s h
  perform-Amity (unblocks player_id target_id) s h = unblock-Amity player_id target_id s h

  settle_social-Amity :
      (key : ℕ) (s : SocialState) (r : SocialResult)
      → Amity s
      → Holds Amity r
      → Amity (settle_social key s r)
  settle_social-Amity key s (thrown _) h g = h
  settle_social-Amity key s (done s') h g = record {
    named = g.named;
    distinct = g.distinct;
    friendly = g.friendly;
    proper = g.proper;
  }

  social_transact-Amity :
      (key : ℕ) (call : Call) (s : SocialState) → Amity s → Amity (social_transact env key call s)
  unfolding social_transact
  social_transact-Amity key call s h = elim (Bool-cases (includes s.operations key)) [
    | inl repeated ↦ rw repeated h
    | inr first ↦ rw first (settle_social-Amity key s _ h (perform-Amity call s h))
  ]

  -- From a state where it is so, over any history of calls, done, refused or repeated, every friendship
  -- stands under its identifier, no two friendships have the same key or are of the same players, and
  -- no two players are friends, or have a request that awaits its answer, of which one has blocked
  -- the other.
  pub converse-Amity :
      (calls : List (ℕ × Call)) (s : SocialState) → Amity s → Amity (converse env calls s)
  unfolding converse
  converse-Amity [] s h = h
  converse-Amity ((key, call) ∷ calls) s h =
      converse-Amity calls (social_transact env key call s) (social_transact-Amity key call s h)
