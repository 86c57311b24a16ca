-- ===== src/Social/Relation.antt =====
-- The friends of server/social/FriendsService.ts as a symmetric relation on the players.
pub mod Calls
use vaelmour_game.Prelude.{
  ℕ, ◌≡◌, refl, Bool, true, false, not, ◌&&◌, ◌||◌, Option, none, some, List, [], ◌∷◌, ◌==◌, ltb,
  any, find, ◌∙◌, ap, sym, arith, Bool-cases, Option-cases, inl, inr, ==_iff, subst,
}
use vaelmour_game.Prelude.Dict.{Dict, lookup, insert, erase, values}
use vaelmour_game.Prelude.Entries.{
  AllEntries, AllEntries-map, AllEntries-zip, AllEntries-find, AllEntries-lookup,
}
use vaelmour_game.Data.{StoredPlayerProfile}
use vaelmour_game.Economy.Types.{Env}
use vaelmour_game.Social.Types.{
  RequestStatus, FriendRequestRecord, FriendshipRecord, SocialState, awaits,
}
use vaelmour_game.Social.Friends.{
  canonical_pair, is_pair, is_found, friendship, exact_player, answer, befriend, accept_request,
  send_request, respond, remove, block, unblock, unfriend, unfriend_if, put_block, cancel_requests,
  is_blocked, is_between, Call, sends, responds, removes, blocks_player, unblocks, perform,
}
use vaelmour_game.Social.Pairs.{Distinct, Unpaired, erase-Unpaired, later_id}
use vaelmour_game.Social.Amity.{
  Amity, IsProper, canonical_lt, canonical_of_lt, Holds, throws_if-Holds, require-Holds, neither,
}

-- Who is whose friend.
abbrev pub Relation : Type 0
Relation = ℕ → ℕ → Bool

-- The two pairs are of the same players.
abbrev pub same_players : ℕ → ℕ → Relation
same_players p q a b = ((p == a) && (q == b)) || ((p == b) && (q == a))

abbrev pub united : ℕ → ℕ → Relation → Relation
united p q r a b = r a b || same_players p q a b

abbrev pub parted : ℕ → ℕ → Relation → Relation
parted p q r a b = r a b && not (same_players p q a b)

-- What the yes to a request means.
abbrev pub agreed : Option FriendRequestRecord → Relation → Relation
agreed none r = r
agreed (some request) r = united request.requester_id request.receiver_id r

-- What the block of a player, if it is found, means.
abbrev pub severed : ℕ → Option StoredPlayerProfile → Relation → Relation
severed player_id none r = r
severed player_id (some target) r = parted player_id target.player_id r

abbrev pub are_friends : SocialState → Relation
are_friends s a b = is_found (friendship s a b)

pub and_true : (b : Bool) → b ≡ (b && not false)
and_true b = ground arith

pub or_false : (b : Bool) → b ≡ (b || false)
or_false b = ground arith

pub is_found-find : {A : Type 0} (p : A → Bool) (xs : List A) → is_found (find p xs) ≡ any p xs
is_found-find p [] = refl
is_found-find p (x ∷ xs) = elim (Bool-cases (p x)) [
  | inl hit ↦ rw hit refl
  | inr miss ↦ rw miss (is_found-find p xs)
]

pub any-insert :
    {A : Type 0} (p : A → Bool) (k : ℕ) (v : A) (d : Dict A)
    → lookup k d ≡ none
    → any p (values (insert k v d)) ≡ (any p (values d) || p v)
any-insert p k v [] h = ground arith
any-insert p k v ((j, w) ∷ d) h = elim (Bool-cases (k == j)) [
  | inl hit ↦ let found : some w ≡ none = rw hit at h in cc
  | inr miss ↦ let rest = any-insert p k v d (rw miss at h) in rw (miss, rest) (ground arith)
]

Unpaired-any :
    (low high : ℕ) (d : Dict FriendshipRecord)
    → Unpaired low high d
    → any (is_pair low high) (values d) ≡ false
Unpaired-any low high [] h = refl
Unpaired-any low high ((k, w) ∷ d) h = rw h.0 (Unpaired-any low high d h.1)

-- An entry that is not of the pair stays.
any-erase :
    (low high x y : ℕ) (d : Dict FriendshipRecord) (f : FriendshipRecord)
    → AllEntries (λ k w. w.id ≡ k) d
    → Distinct d
    → find (is_pair low high) (values d) ≡ some f
    → ((low == x) && (high == y)) ≡ false
    → any (is_pair x y) (values (erase f.id d)) ≡ any (is_pair x y) (values d)
any-erase low high x y [] f ids h e other = refl
any-erase low high x y ((k, w) ∷ d) f ids h e other = elim (Bool-cases (is_pair low high w)) [
  | inl hit ↦
      let found : some w ≡ some f = rw hit at e in
      let same : w ≡ f = cc in
      let here : (f.id == k) ≡ true = rw (← same) ((==_iff w.id k).1 ids.0) in
      let aside : is_pair x y w ≡ false = ground arith in rw (here, aside) refl
  | inr miss ↦
      let later : find (is_pair low high) (values d) ≡ some f = rw miss at e in
      let rest = any-erase low high x y d f ids.1 h.1 later other in
      let there = later_id low high k w d f ids h later in rw (there, rest) refl
]

both_true : (a b c d : ℕ) → ((a == b) && (c == d)) ≡ true → (a ≡ b) × (c ≡ d)
both_true a b c d h = (ground arith, ground arith)

pub canonical_same :
    (p q a b : ℕ)
    → (((canonical_pair p q).0 == (canonical_pair a b).0)
        && ((canonical_pair p q).1 == (canonical_pair a b).1))
      ≡ same_players p q a b
canonical_same p q a b = ground arith

erased_any :
    (low high x y : ℕ) (d : Dict FriendshipRecord) (f : FriendshipRecord)
    → AllEntries (λ k w. w.id ≡ k) d
    → Distinct d
    → find (is_pair low high) (values d) ≡ some f
    → any (is_pair x y) (values (erase f.id d))
      ≡ (any (is_pair x y) (values d) && not ((low == x) && (high == y)))
erased_any low high x y d f ids h e = elim (Bool-cases ((low == x) && (high == y))) [
  | inl same ↦
      let eqs : (low ≡ x) × (high ≡ y) = (ground arith, ground arith) in
      let gone = Unpaired-any low high (erase f.id d) (erase-Unpaired low high d f ids h e) in
      let gone' : any (is_pair x y) (values (erase f.id d)) ≡ false = rw (← eqs.0, ← eqs.1) gone in
      rw (same, gone') (ground arith)
  | inr other ↦ rw (other, any-erase low high x y d f ids h e other) (ground arith)
]

-- To erase the friendship of two players parts them.
pub unfriend-parted :
    (p q : ℕ) (s : SocialState) (f : FriendshipRecord)
    → Amity s
    → friendship s p q ≡ some f
    → (a b : ℕ) → are_friends (unfriend f s) a b ≡ parted p q (are_friends s) a b
unfolding friendship
unfriend-parted p q s f h e a b =
    let at = is_pair (canonical_pair a b).0 (canonical_pair a b).1 in
    rw
      (
        is_found-find at (values (erase f.id s.friendships)),
        is_found-find at (values s.friendships),
        ← canonical_same p q a b,
      )
      (erased_any _ _ _ _ s.friendships f h.named h.distinct e)

-- The same players have the same friendship.
pub same-friendship :
    (p q a b : ℕ) (s : SocialState)
    → same_players p q a b ≡ true
    → are_friends s a b ≡ are_friends s p q
unfolding friendship
same-friendship p q a b s h =
    let both = canonical_same p q a b ∙ h in
    let eqs : ((canonical_pair p q).0 ≡ (canonical_pair a b).0)
        × ((canonical_pair p q).1 ≡ (canonical_pair a b).1) =
      both_true _ _ _ _ both in
    rw (← eqs.0, ← eqs.1) refl

-- Two players that are no friends are parted.
pub none-parted :
    (p q : ℕ) (s : SocialState)
    → friendship s p q ≡ none
    → (a b : ℕ) → are_friends s a b ≡ parted p q (are_friends s) a b
unfolding friendship
none-parted p q s e a b = elim (Bool-cases (same_players p q a b)) [
  | inl same ↦
      let absent : are_friends s a b ≡ false = same-friendship p q a b s same ∙ ap is_found e in
      rw (same, absent) refl
  | inr other ↦ rw other (and_true (are_friends s a b))
]
