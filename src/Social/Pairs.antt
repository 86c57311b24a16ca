-- ===== src/Social/Pairs.antt =====
-- Pairs of players and blocks, for server/social/FriendsService.ts.
use vaelmour_game.Prelude.{
  ℕ, ◌≡◌, refl, Bool, true, false, ◌&&◌, ◌||◌, none, some, List, [], ◌∷◌, ◌==◌, find, remove_first,
  arith, Bool-cases, inl, inr, ==_iff,
}
use vaelmour_game.Prelude.Dict.{Dict, insert, erase, values}
use vaelmour_game.Prelude.Entries.{
  AllEntries, AllEntries-insert, AllEntries-erase, AllEntries-map, AllEntries-zip, AllEntries-find,
}
use vaelmour_game.Social.Types.{PlayerBlockRecord, FriendshipRecord}
use vaelmour_game.Social.Friends.{has_block, set_block, is_pair}

-- One block more.
pub has_block-set_block :
    (new : PlayerBlockRecord) (a b : ℕ) (bs : List PlayerBlockRecord)
    → has_block a b (set_block new bs)
      ≡ (has_block a b bs || ((new.blocker_id == a) && (new.blocked_id == b)))
has_block-set_block new a b [] = ground arith
has_block-set_block new a b (x ∷ bs) = ground (arith, has_block-set_block new a b bs)

-- No block comes of a block that goes.
pub has_block-remove_first :
    (p : PlayerBlockRecord → Bool) (a b : ℕ) (bs : List PlayerBlockRecord)
    → has_block a b bs ≡ false
    → has_block a b (remove_first p bs) ≡ false
has_block-remove_first p a b [] h = refl
has_block-remove_first p a b (x ∷ bs) h = ground (arith, has_block-remove_first p a b bs)

-- Two entries: neither the key nor the pair is the same.
abbrev pub Apart : ℕ → FriendshipRecord → ℕ → FriendshipRecord → Type 0
Apart k v j w = ((k == j) ≡ false) × (is_pair v.player_low_id v.player_high_id w ≡ false)

-- No two entries have the same key or the same pair.
abbrev pub Distinct : Dict FriendshipRecord → Type 0
Distinct [] = Unit
Distinct ((k, v) ∷ d) = AllEntries (Apart k v) d × Distinct d

abbrev pub Unpaired : ℕ → ℕ → Dict FriendshipRecord → Type 0
Unpaired low high = AllEntries (λ _ w. is_pair low high w ≡ false)

pub find-Unpaired :
    (low high : ℕ) (d : Dict FriendshipRecord)
    → find (is_pair low high) (values d) ≡ none
    → Unpaired low high d
find-Unpaired low high [] h = tt
find-Unpaired low high ((k, w) ∷ d) h = elim (Bool-cases (is_pair low high w)) [
  | inl hit ↦ let found : some w ≡ none = rw hit at h in cc
  | inr miss ↦ (miss, find-Unpaired low high d (rw miss at h))
]

-- Another pair is the other way round another pair.
is_pair_sym :
    (v w : FriendshipRecord)
    → is_pair v.player_low_id v.player_high_id w ≡ false
    → is_pair w.player_low_id w.player_high_id v ≡ false
is_pair_sym v w h = ground arith

is_pair-same :
    (low high : ℕ) (v : FriendshipRecord)
    → is_pair low high v ≡ true
    → (low ≡ v.player_low_id) × (high ≡ v.player_high_id)
is_pair-same low high v h = (ground arith, ground arith)

pub Distinct-insert :
    (k : ℕ) (v : FriendshipRecord) (d : Dict FriendshipRecord)
    → Unpaired v.player_low_id v.player_high_id d
    → Distinct d
    → Distinct (insert k v d)
Distinct-insert k v [] u h = (tt, tt)
Distinct-insert k v ((j, w) ∷ d) u h = elim (Bool-cases (k == j)) [
  | inl hit ↦
      let same : k ≡ j = (==_iff k j).0 hit in
      let apart : AllEntries (Apart j v) d = AllEntries-zip (λ i x a b. (a.0, b)) d h.0 u.1 in
      rw hit (apart, h.1)
  | inr miss ↦
      let other : (j == k) ≡ false = ground arith in
      rw miss (
        AllEntries-insert (Apart j w) k v d (other, is_pair_sym v w u.0) h.0,
        Distinct-insert k v d u.1 h.1,
      )
]

pub Distinct-erase : (k : ℕ) (d : Dict FriendshipRecord) → Distinct d → Distinct (erase k d)
Distinct-erase k [] h = tt
Distinct-erase k ((j, w) ∷ d) h = elim (Bool-cases (k == j)) [
  | inl hit ↦ rw hit h.1
  | inr miss ↦ rw miss (AllEntries-erase (Apart j w) k d h.0, Distinct-erase k d h.1)
]

other_id : (k j id : ℕ) → (k == j) ≡ false → id ≡ j → (id == k) ≡ false
other_id k j id h e = ground arith

-- What is found past an entry stands under another key.
pub later_id :
    (low high k : ℕ) (w : FriendshipRecord) (d : Dict FriendshipRecord) (f : FriendshipRecord)
    → AllEntries (λ k w. w.id ≡ k) ((k, w) ∷ d)
    → Distinct ((k, w) ∷ d)
    → find (is_pair low high) (values d) ≡ some f
    → (f.id == k) ≡ false
later_id low high k w d f ids h later =
    (AllEntries-find (λ j x. (x.id == k) ≡ false) (is_pair low high) d f
      (AllEntries-zip (λ j x a b. other_id k j x.id a.0 b) d h.0 ids.1) later).1

-- The friendship that is found and erased was the only one of the pair.
pub erase-Unpaired :
    (low high : ℕ) (d : Dict FriendshipRecord) (f : FriendshipRecord)
    → AllEntries (λ k w. w.id ≡ k) d
    → Distinct d
    → find (is_pair low high) (values d) ≡ some f
    → Unpaired low high (erase f.id d)
erase-Unpaired low high [] f ids h e = tt
erase-Unpaired low high ((k, w) ∷ d) f ids h e = elim (Bool-cases (is_pair low high w)) [
  | inl hit ↦
      let found : some w ≡ some f = rw hit at e in
      let same : w ≡ f = cc in
      let (is_low, is_high) = is_pair-same low high w hit in
      let here : (f.id == k) ≡ true = rw (← same) ((==_iff w.id k).1 ids.0) in
      let rest : Unpaired low high d = rw (is_low, is_high) (AllEntries-map (λ j x a. a.1) d h.0) in
      rw here rest
  | inr miss ↦
      let later : find (is_pair low high) (values d) ≡ some f = rw miss at e in
      let there = later_id low high k w d f ids h later in
      rw there (miss, erase-Unpaired low high d f ids.1 h.1 later)
]
