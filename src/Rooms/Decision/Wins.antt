-- ===== src/Rooms/Decision/Wins.antt =====
-- Which side the votes of server/rooms/RoomManager.ts make win, and just when.
use vaelmour_game.Prelude.{
  sym, refl, none, ℕ, suc, ◌+◌, ◌/◌, ◌≤◌, ◌<◌, ◌≡◌, refl, Bool, true, false, ==_iff, ==_refl, ap,
  ◌∙◌, Option, some, List, leb, ltb, ◌==◌, length, arith, Bool-cases, inl, inr, ◌⊎◌, ◌↔◌,
}
use vaelmour_game.Prelude.Dict.{Dict, lookup}
use vaelmour_game.Rooms.Types.{ExpeditionVote}
use vaelmour_game.Rooms.Store.{has_key}
use vaelmour_game.Rooms.Votes.{
  is_continue, is_exit, all_of, count_votes, settle_votes, leader_choice, decision,
}
use vaelmour_game.Rooms.Decision.{votes-bounded, majority_lem, some-injective, choice_of, pro}

-- The leader voted so; a leader who has not voted is for leaving.
abbrev pub IsLeaders : Option ExpeditionVote → ExpeditionVote → Type 0
IsLeaders leader v = (leader ≡ some v) ⊎ ((leader ≡ none) × (v ≡ ExpeditionVote.exit_run))

leader_choice-IsLeaders :
    (leader : Option ExpeditionVote) (v : ExpeditionVote)
    → leader_choice leader ≡ v
    → IsLeaders leader v
leader_choice-IsLeaders none v h = inr (refl, sym h)
leader_choice-IsLeaders (some w) v h = inl (ap some h)

IsLeaders-leader_choice :
    (leader : Option ExpeditionVote) (v : ExpeditionVote)
    → IsLeaders leader v
    → leader_choice leader ≡ v
IsLeaders-leader_choice none v (inl e) = cc
IsLeaders-leader_choice none v (inr (_, e)) = sym e
IsLeaders-leader_choice (some w) v (inl e) = some-injective w v e
IsLeaders-leader_choice (some w) v (inr (e, _)) = cc

-- A choice is made early by more than half, or in the end by the more votes, where those of a tie are
-- settled by the leader: for leaving, if the leader has not voted.
abbrev pub Wins : ExpeditionVote → ℕ → ℕ → ℕ → Bool → Option ExpeditionVote → Type 0
Wins v c e n all leader =
    (n < pro v c e + pro v c e)
    ⊎ ((all ≡ true) × ((pro v e c < pro v c e) ⊎ ((c ≡ e) × IsLeaders leader v)))

settle_votes-Wins :
    (c e : ℕ) (leader : Option ExpeditionVote) (v : ExpeditionVote)
    → settle_votes c e leader ≡ v
    → (pro v e c < pro v c e) ⊎ ((c ≡ e) × IsLeaders leader v)
settle_votes-Wins c e leader v h = elim (Bool-cases (c == e)) [
  | inl tie ↦ inr ((==_iff c e).0 tie, leader_choice-IsLeaders leader v (rw tie at h))
  | inr no_tie ↦ elim (Bool-cases (ltb e c)) [
    | inl more ↦
        let is : ExpeditionVote.continue_run ≡ v = rw (no_tie, more) at h in
        inl (rw (← is) (ground arith))
    | inr fewer ↦
        let is : ExpeditionVote.exit_run ≡ v = rw (no_tie, fewer) at h in
        inl (rw (← is) (ground arith))
  ]
]

choice_of-Wins :
    (c e n : ℕ) (all : Bool) (leader : Option ExpeditionVote) (v : ExpeditionVote)
    → choice_of c e n all leader ≡ some v
    → Wins v c e n all leader
choice_of-Wins c e n all leader v h = elim (Bool-cases (leb (suc (n / 2)) c)) [
  | inl most ↦
      let is = some-injective ExpeditionVote.continue_run v (rw most at h) in
      inl (rw (← is) (majority_lem c n most))
  | inr no_most ↦ elim (Bool-cases (leb (suc (n / 2)) e)) [
    | inl most ↦
        let is = some-injective ExpeditionVote.exit_run v (rw (no_most, most) at h) in
        inl (rw (← is) (majority_lem e n most))
    | inr no_more ↦ elim (Bool-cases all) [
      | inl voted ↦
          let is = some-injective _ v (rw (no_most, no_more, voted) at h) in
          inr (voted, settle_votes-Wins c e leader v is)
      | inr open_vote ↦ cc (rw (no_most, no_more, open_vote) at h)
    ]
  ]
]

-- The settled choice, once no side has more than half.
settled :
    (c e n : ℕ) (leader : Option ExpeditionVote)
    → leb (suc (n / 2)) c ≡ false
    → leb (suc (n / 2)) e ≡ false
    → choice_of c e n true leader ≡ some (settle_votes c e leader)
settled c e n leader p q = rw (p, q) refl

tie-Wins :
    (c n : ℕ) (leader : Option ExpeditionVote)
    → c + c ≤ n
    → choice_of c c n true leader ≡ some (leader_choice leader)
tie-Wins c n leader total =
    let no_most : leb (suc (n / 2)) c ≡ false = ground arith in
    settled c c n leader no_most no_most ∙ rw (==_refl c) refl

Wins-continue :
    (c e n : ℕ) (leader : Option ExpeditionVote)
    → c + e ≤ n
    → e < c
    → choice_of c e n true leader ≡ some ExpeditionVote.continue_run
Wins-continue c e n leader total more = elim (Bool-cases (leb (suc (n / 2)) c)) [
  | inl most ↦ rw most refl
  | inr no_most ↦
      let no_more : leb (suc (n / 2)) e ≡ false = ground arith in
      let no_tie : (c == e) ≡ false = ground arith in
      let ahead : ltb e c ≡ true = ground arith in
      settled c e n leader no_most no_more ∙ rw (no_tie, ahead) refl
]

Wins-exit :
    (c e n : ℕ) (leader : Option ExpeditionVote)
    → c + e ≤ n
    → c < e
    → choice_of c e n true leader ≡ some ExpeditionVote.exit_run
Wins-exit c e n leader total more =
    let no_most : leb (suc (n / 2)) c ≡ false = ground arith in
    elim (Bool-cases (leb (suc (n / 2)) e)) [
      | inl most ↦ rw (no_most, most) refl
      | inr no_more ↦
          let no_tie : (c == e) ≡ false = ground arith in
          let behind : ltb e c ≡ false = ground arith in
          settled c e n leader no_most no_more ∙ rw (no_tie, behind) refl
    ]

-- More than half, whoever else has voted.
Wins-half :
    (c e n : ℕ) (all : Bool) (leader : Option ExpeditionVote) (v : ExpeditionVote)
    → c + e ≤ n
    → n < pro v c e + pro v c e
    → choice_of c e n all leader ≡ some v
Wins-half c e n all leader ExpeditionVote.continue_run total more =
    let most : leb (suc (n / 2)) c ≡ true = ground arith in rw most refl
Wins-half c e n all leader ExpeditionVote.exit_run total more =
    let no_most : leb (suc (n / 2)) c ≡ false = ground arith in
    let most : leb (suc (n / 2)) e ≡ true = ground arith in rw (no_most, most) refl

Wins-choice_of :
    (c e n : ℕ) (all : Bool) (leader : Option ExpeditionVote) (v : ExpeditionVote)
    → c + e ≤ n
    → Wins v c e n all leader
    → choice_of c e n all leader ≡ some v
Wins-choice_of c e n all leader v total (inl more) = Wins-half c e n all leader v total more
Wins-choice_of c e n all leader ExpeditionVote.continue_run total (inr (voted, inl more)) =
    rw voted (Wins-continue c e n leader total more)
Wins-choice_of c e n all leader ExpeditionVote.exit_run total (inr (voted, inl more)) =
    rw voted (Wins-exit c e n leader total more)
Wins-choice_of c e n all leader v total (inr (voted, inr (tie, lead))) =
    let half : c + c ≤ n = rw (← tie) at total in
    rw (voted, ← tie) (tie-Wins c n leader half ∙ ap some (IsLeaders-leader_choice leader v lead))

-- The room chooses just what wins: a side with more than half of those who may vote, or, once all of
-- them have voted, the side with the more votes, or, on a tie, the side of the leader, where a leader
-- without a vote is for leaving.
pub decision-Wins :
    (votes : Dict ExpeditionVote) (voters : List ℕ) (leader : ℕ) (v : ExpeditionVote)
    → (decision votes voters leader ≡ some v)
      ↔ Wins v
          (count_votes is_continue votes voters)
          (count_votes is_exit votes voters)
          (length voters)
          (all_of (λ id. has_key id votes) voters)
          (lookup leader votes)
unfolding decision
decision-Wins votes voters leader v = (
  choice_of-Wins _ _ _ _ (lookup leader votes) v,
  Wins-choice_of _ _ _ _ (lookup leader votes) v (votes-bounded votes voters),
)
