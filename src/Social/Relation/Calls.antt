-- ===== src/Social/Relation/Calls.antt =====
-- What the calls of server/social/FriendsService.ts do to the friends.
use vaelmour_game.Prelude.{
  ℕ, ◌≡◌, refl, Bool, true, false, not, ◌||◌, Option, none, some, ◌==◌, any, ◌∙◌, ap, sym, arith,
  Bool-cases, inl, inr, subst, ==_refl,
}
use vaelmour_game.Prelude.Dict.{lookup, values}
use vaelmour_game.Prelude.Entries.{AllEntries-lookup}
use vaelmour_game.Economy.Types.{Env}
use vaelmour_game.Social.Types.{
  RequestStatus, FriendRequestRecord, FriendshipRecord, SocialState, SocialCode, SocialResult, done,
  awaits,
}
use vaelmour_game.Social.Friends.{
  canonical_pair, is_pair, is_found, friendship, exact_player, answer, befriend, accept_request,
  send_request, respond, remove, block, unblock, unfriend_if, put_block, cancel_requests,
  is_blocked, is_between, Call, sends, responds, removes, blocks_player, unblocks, perform, require,
  throws_if,
}
use vaelmour_game.Social.Amity.{
  Amity, IsProper, canonical_lt, canonical_of_lt, Holds, throws_if-Holds, require-Holds,
}
use vaelmour_game.Social.Relation.{
  Relation, same_players, united, parted, agreed, severed, are_friends, or_false, is_found-find,
  any-insert, canonical_same, unfriend-parted, same-friendship, none-parted,
}

require-some :
    {A : Type 0} (o : Option A) (a : A) (code : SocialCode) (rest : A → SocialResult)
    → o ≡ some a
    → require o code rest ≡ rest a
require-some o a code rest e = ap (λ x. require x code rest) e

throws_if-false :
    (b : Bool) (code : SocialCode) (rest : SocialResult) → b ≡ false → throws_if b code rest ≡ rest
throws_if-false b code rest e = ap (λ x. throws_if x code rest) e

own_pending : (a b : Bool) → a ≡ true → b ≡ true → (not a || not b) ≡ false
own_pending a b p q = rw (p, q) refl

united_self : (p q : ℕ) (r : Bool) → (r || same_players p q p q) ≡ true
united_self p q r = ground arith

module _ (env : Env) where
  -- The new friendship unites its two players.
  befriend-united :
      (p q : ℕ) (o : Option FriendshipRecord) (s : SocialState)
      → lookup (env.random_uuid s.draws) s.friendships ≡ none
      → friendship s p q ≡ o
      → (a b : ℕ)
      → are_friends (befriend env (canonical_pair p q).0 (canonical_pair p q).1 o s) a b
        ≡ united p q (are_friends s) a b
  unfolding friendship
  befriend-united p q none s new e a b =
      let at = is_pair (canonical_pair a b).0 (canonical_pair a b).1 in
      rw
        (
          is_found-find at (
              values
                (befriend env (canonical_pair p q).0 (canonical_pair p q).1 none s).friendships),
          is_found-find at (values s.friendships),
          ← canonical_same p q a b,
        )
        (any-insert at (env.random_uuid s.draws) _ s.friendships new)
  befriend-united p q (some f) s new e a b = elim (Bool-cases (same_players p q a b)) [
    | inl same ↦
        let there : are_friends s a b ≡ true = same-friendship p q a b s same ∙ ap is_found e in
        rw (same, there) refl
    | inr other ↦ rw other (or_false (are_friends s a b))
  ]

  accept_request-united :
      (request_id : ℕ) (request : FriendRequestRecord) (s : SocialState)
      → Amity s
      → lookup request_id s.friend_requests ≡ some request
      → lookup (env.random_uuid s.draws) s.friendships ≡ none
      → (a b : ℕ)
      → are_friends (accept_request env request_id request s) a b
        ≡ united request.requester_id request.receiver_id (are_friends s) a b
  unfolding friendship
  accept_request-united request_id request s h found new a b =
      let p = request.requester_id in
      let q = request.receiver_id in
      let old =
        AllEntries-lookup (λ _ r. IsProper s.blocks r) request_id s.friend_requests request h.proper
          found in
      let answered = answer request_id request RequestStatus.accepted s in
      rw (canonical_of_lt (canonical_pair p q).0 (canonical_pair p q).1 (canonical_lt p q old.0))
        (befriend-united p q (friendship answered p q) answered new refl a b)

  unfriend_if-parted :
      (p q : ℕ) (s : SocialState) (o : Option FriendshipRecord)
      → friendship s p q ≡ o
      → Amity s
      → (a b : ℕ)
      → are_friends (cancel_requests p q (unfriend_if o (put_block env p q s))) a b
        ≡ parted p q (are_friends s) a b
  unfolding friendship
  unfriend_if-parted p q s none e h a b = none-parted p q s e a b
  unfriend_if-parted p q s (some f) e h a b = unfriend-parted p q s f h e a b

  -- What a call means for the friends, if nothing is thrown.
  abbrev pub meaning : Call → SocialState → Relation → Relation
  meaning (sends _ _) s r = r
  meaning (responds _ request_id false) s r = r
  meaning (responds _ request_id true) s r = agreed (lookup request_id s.friend_requests) r
  meaning (removes player_id friend_id) s r = parted player_id friend_id r
  meaning (blocks_player player_id name) s r = severed player_id (exact_player env s name) r
  meaning (unblocks _ _) s r = r

  -- The friends afterwards are what the call means.
  abbrev pub Implements : Call → SocialState → SocialState → Type 0
  Implements call s s' = (a b : ℕ) → are_friends s' a b ≡ meaning call s (are_friends s) a b

  -- Where the friends, the blocks and the requests are in order and the next random identifier is not
  -- in use, a call that throws nothing makes of the friends just what it means: a yes unites the two
  -- players of the request, a removal or a block parts the two players, and every other pair stays
  -- what it was.
  pub perform-Implements :
      (call : Call) (s : SocialState)
      → Amity s
      → lookup (env.random_uuid s.draws) s.friendships ≡ none
      → Holds (Implements call s) (perform env call s)
  unfolding friendship send_request respond remove block unblock
  perform-Implements (sends player_id name) s h new =
      let Q = Implements (sends player_id name) s in
      require-Holds Q (lookup player_id s.players) _ _ λ _ _.
        require-Holds Q (exact_player env s name) _ _ λ target _.
          throws_if-Holds Q (target.player_id == player_id) _ _ λ _.
            throws_if-Holds Q (is_blocked s.blocks player_id target.player_id) _ _ λ _.
              throws_if-Holds Q (is_found (friendship s player_id target.player_id)) _ _ λ _.
                throws_if-Holds Q
                  (any (is_between player_id target.player_id) (values s.friend_requests)) _ _
                  λ _ a b. refl
  perform-Implements (responds player_id request_id false) s h new =
      let Q = Implements (responds player_id request_id false) s in
      require-Holds Q (lookup request_id s.friend_requests) _ _ λ request _.
        throws_if-Holds Q (not (request.receiver_id == player_id) || not (awaits request.status)) _
          _ λ _ a b. refl
  perform-Implements (responds player_id request_id true) s h new =
      let Q = Implements (responds player_id request_id true) s in
      require-Holds Q (lookup request_id s.friend_requests) _ _ λ request found.
        throws_if-Holds Q (not (request.receiver_id == player_id) || not (awaits request.status)) _
          _
          λ _. throws_if-Holds Q (is_blocked s.blocks request.requester_id player_id) _ _ λ _ a b.
            subst
              (λ o.
                are_friends (accept_request env request_id request s) a b
                ≡ agreed o (are_friends s) a b)
              (sym found) (accept_request-united request_id request s h found new a b)
  perform-Implements (removes player_id friend_id) s h new =
      require-Holds (Implements (removes player_id friend_id) s) (friendship s player_id friend_id)
        _ _ λ f found. unfriend-parted player_id friend_id s f h found
  perform-Implements (blocks_player player_id name) s h new =
      let Q = Implements (blocks_player player_id name) s in
      require-Holds Q (exact_player env s name) _ _ λ target found.
        throws_if-Holds Q (target.player_id == player_id) _ _ λ _ a b.
          subst
            (λ o.
              are_friends
                (cancel_requests player_id target.player_id (
                  unfriend_if (friendship s player_id target.player_id)
                    (put_block env player_id target.player_id s)))
                a b
              ≡ severed player_id o (are_friends s) a b)
            (sym found) (unfriend_if-parted player_id target.player_id s _ refl h a b)
  perform-Implements (unblocks player_id target_id) s h new = λ a b. refl

  -- Where the friends, the blocks and the requests are in order and the next random identifier is not
  -- in use, the receiver of a request that awaits an answer can accept it: nothing is thrown, and the
  -- two players are friends.
  pub respond-Befriends :
      (request_id : ℕ) (request : FriendRequestRecord) (s : SocialState)
      → Amity s
      → lookup (env.random_uuid s.draws) s.friendships ≡ none
      → lookup request_id s.friend_requests ≡ some request
      → awaits request.status ≡ true
      → (s' : SocialState) × (respond env request.receiver_id request_id true s ≡ done s')
        × (are_friends s' request.requester_id request.receiver_id ≡ true)
  unfolding respond
  respond-Befriends request_id request s h new found waiting =
      let p = request.requester_id in
      let q = request.receiver_id in
      let old =
        AllEntries-lookup (λ _ r. IsProper s.blocks r) request_id s.friend_requests request h.proper
          found in
      let free : is_blocked s.blocks p q ≡ false = rw waiting at old.1 in
      (
        accept_request env request_id request s,
        require-some (lookup request_id s.friend_requests) request _ _ found
            ∙ throws_if-false (not (q == q) || not (awaits request.status)) _ _
                (own_pending (q == q) (awaits request.status) (==_refl q) waiting)
            ∙ throws_if-false (is_blocked s.blocks p q) _ _ free,
        accept_request-united request_id request s h found new p q
            ∙ united_self p q (are_friends s p q),
      )
