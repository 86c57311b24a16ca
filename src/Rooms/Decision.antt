-- ===== src/Rooms/Decision.antt =====
-- What the votes of server/rooms/RoomManager.ts decide.
pub mod Wins
use vaelmour_game.Prelude.{
  ℕ, suc, ◌+◌, ◌/◌, ◌≤◌, ◌<◌, ◌≡◌, refl, Bool, true, false, ==_iff, ==_refl, ap, ◌∙◌, Option, none,
  some, List, [], ◌∷◌, leb, ltb, ◌==◌, is_some, length, arith, Bool-cases, inl, inr, ◌⊎◌, ◌↔◌,
  if◌then◌else◌,
}
use vaelmour_game.Prelude.Dict.{Dict, lookup}
use vaelmour_game.Rooms.Types.{ExpeditionVote}
use vaelmour_game.Rooms.Store.{has_key}
use vaelmour_game.Rooms.Votes.{
  is_continue, is_exit, all_of, count_votes, settle_votes, leader_choice, decision,
}

-- The votes for a choice, and those for the other.
abbrev pub votes_for : ExpeditionVote → Dict ExpeditionVote → List ℕ → ℕ
votes_for ExpeditionVote.continue_run votes voters = count_votes is_continue votes voters
votes_for ExpeditionVote.exit_run votes voters = count_votes is_exit votes voters

abbrev pub votes_against : ExpeditionVote → Dict ExpeditionVote → List ℕ → ℕ
votes_against ExpeditionVote.continue_run votes voters = count_votes is_exit votes voters
votes_against ExpeditionVote.exit_run votes voters = count_votes is_continue votes voters

pub votes-bounded :
    (votes : Dict ExpeditionVote) (voters : List ℕ)
    → count_votes is_continue votes voters + count_votes is_exit votes voters ≤ length voters
unfolding count_votes
votes-bounded votes [] = omega arith
votes-bounded votes (v ∷ vs) = ground (arith, votes-bounded votes vs)

-- Of `for` and `against` among `n` voters: no fewer for it than against it, and all have voted or
-- more than half are for it.
abbrev Holds : ℕ → ℕ → ℕ → Bool → Type 0
Holds pro contra n all = (contra ≤ pro) × ((all ≡ true) ⊎ (n < pro + pro))

pub majority_lem : (c n : ℕ) → leb (suc (n / 2)) c ≡ true → n < c + c
majority_lem c n h = ground arith

-- The counts and the choice that `decision` makes of them.
abbrev pub choice_of : ℕ → ℕ → ℕ → Bool → Option ExpeditionVote → Option ExpeditionVote
choice_of c e n all leader =
    if leb (suc (n / 2)) c
    then some ExpeditionVote.continue_run
    else if leb (suc (n / 2)) e
    then some ExpeditionVote.exit_run
    else if all
    then some (settle_votes c e leader)
    else none

settle-continue :
    (c e : ℕ) (leader : Option ExpeditionVote)
    → settle_votes c e leader ≡ ExpeditionVote.continue_run
    → e ≤ c
settle-continue c e leader h = elim (Bool-cases (c == e)) [
  | inl tie ↦ ground arith
  | inr no_tie ↦ elim (Bool-cases (ltb e c)) [
    | inl more ↦ ground arith
    | inr fewer ↦ cc (rw (no_tie, fewer) at h)
  ]
]

settle-exit :
    (c e : ℕ) (leader : Option ExpeditionVote)
    → settle_votes c e leader ≡ ExpeditionVote.exit_run
    → c ≤ e
settle-exit c e leader h = elim (Bool-cases (c == e)) [
  | inl tie ↦ ground arith
  | inr no_tie ↦ elim (Bool-cases (ltb e c)) [
    | inl more ↦ cc (rw (no_tie, more) at h)
    | inr fewer ↦ ground arith
  ]
]

abbrev pub pro : ExpeditionVote → ℕ → ℕ → ℕ
pro ExpeditionVote.continue_run c e = c
pro ExpeditionVote.exit_run c e = e

settle-Holds :
    (c e n : ℕ) (leader : Option ExpeditionVote) (v : ExpeditionVote)
    → settle_votes c e leader ≡ v
    → Holds (pro v c e) (pro v e c) n true
settle-Holds c e n leader ExpeditionVote.continue_run h = (settle-continue c e leader h, inl refl)
settle-Holds c e n leader ExpeditionVote.exit_run h = (settle-exit c e leader h, inl refl)

pub some-injective : (a b : ExpeditionVote) → some a ≡ some b → a ≡ b
some-injective a b h = cc

most-Holds :
    (c e n : ℕ) (all : Bool) (v w : ExpeditionVote)
    → c + e ≤ n
    → leb (suc (n / 2)) (pro w c e) ≡ true
    → some w ≡ some v
    → Holds (pro v c e) (pro v e c) n all
most-Holds c e n all v w total most h = rw (← some-injective w v h) (go w most)
  where
    go :
        (u : ExpeditionVote)
        → leb (suc (n / 2)) (pro u c e) ≡ true
        → Holds (pro u c e) (pro u e c) n all
    go ExpeditionVote.continue_run m =
        let more = majority_lem c n m in (omega (arith, more, total), inr more)
    go ExpeditionVote.exit_run m =
        let more = majority_lem e n m in (omega (arith, more, total), inr more)

choice_of-Holds :
    (c e n : ℕ) (all : Bool) (leader : Option ExpeditionVote) (v : ExpeditionVote)
    → c + e ≤ n
    → choice_of c e n all leader ≡ some v
    → Holds (pro v c e) (pro v e c) n all
choice_of-Holds c e n all leader v total h = elim (Bool-cases (leb (suc (n / 2)) c)) [
  | inl most ↦ most-Holds c e n all v ExpeditionVote.continue_run total most (rw most at h)
  | inr no_most ↦ elim (Bool-cases (leb (suc (n / 2)) e)) [
    | inl most ↦ most-Holds c e n all v ExpeditionVote.exit_run total most (rw (no_most, most) at h)
    | inr no_more ↦ elim (Bool-cases all) [
      | inl voted ↦
          rw voted
            (settle-Holds c e n leader v (some-injective _ _ (rw (no_most, no_more, voted) at h)))
      | inr open_vote ↦ cc (rw (no_most, no_more, open_vote) at h)
    ]
  ]
]

-- A choice of the room has no fewer votes for it than against it among those who may vote, and
-- either all of them have voted or more than half of them are for it.
pub decision-holds :
    (votes : Dict ExpeditionVote) (voters : List ℕ) (leader : ℕ) (v : ExpeditionVote)
    → decision votes voters leader ≡ some v
    → (votes_against v votes voters ≤ votes_for v votes voters)
      × ((all_of (λ id. has_key id votes) voters ≡ true)
          ⊎ (length voters < votes_for v votes voters + votes_for v votes voters))
unfolding decision
decision-holds votes voters leader ExpeditionVote.continue_run h =
    choice_of-Holds _ _ _ _ (lookup leader votes) ExpeditionVote.continue_run
      (votes-bounded votes voters) h
decision-holds votes voters leader ExpeditionVote.exit_run h =
    choice_of-Holds _ _ _ _ (lookup leader votes) ExpeditionVote.exit_run
      (votes-bounded votes voters) h
