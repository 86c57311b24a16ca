-- ===== src/Rooms/Keeping/Harmless.antt =====
-- The writes to rooms of server/rooms/RoomManager.ts that are harmless: for starts, rounds, rewards and
-- votes.
use vaelmour_game.Prelude.{ℕ, ◌≡◌, refl, Bool, false, List, [], ◌∷◌, arith}
use vaelmour_game.Prelude.Dict.{Dict}
use vaelmour_game.Data.{PersonalLoot}
use vaelmour_game.Combat.Types.{Character, Enemy, CombatAction, RoundResult}
use vaelmour_game.Rooms.Types.{RoomPhase, ExpeditionVote, RoomMember}
use vaelmour_game.Rooms.Store.{has_key, is_lobby}
use vaelmour_game.Rooms.Start.{Prepared, prepare_members, with_expedition, begun, with_round}
use vaelmour_game.Rooms.Rewards.{with_rewards, after_encounter, with_extracted}
use vaelmour_game.Rooms.Votes.{with_vote, with_phase, raise_index, next_encounter}
use vaelmour_game.Rooms.Battle.{
  with_submitted, with_auto, with_member_at, set_resolving, take_outcomes, with_result, stopped,
  next_round,
}
use vaelmour_game.Rooms.Keeping.Laws.{IsHarmless, IsHarmless-plain, has_key-change_at}

has_key-prepare_members :
    (prepared : Dict Prepared) (j : ℕ) (ms : Dict RoomMember)
    → has_key j ms ≡ false
    → has_key j (prepare_members prepared ms) ≡ false
has_key-prepare_members prepared j [] h = refl
has_key-prepare_members prepared j ((i, m) ∷ ms) h =
    ground (arith, has_key-prepare_members prepared j ms)

has_key-take_outcomes :
    (cs : List Character) (d : Dict ℕ) (j : ℕ) (ms : Dict RoomMember)
    → has_key j ms ≡ false
    → has_key j (take_outcomes cs d ms) ≡ false
has_key-take_outcomes [] d j ms h = h
has_key-take_outcomes (c ∷ cs) d j ms h =
    has_key-take_outcomes cs d j _ (has_key-change_at j c.id _ ms h)

module _ {F : Type 0} where
  pub with_expedition-IsHarmless : (id : ℕ) → IsHarmless (with_expedition {F = F} id)
  with_expedition-IsHarmless id = IsHarmless-plain (λ r. refl) (λ r. refl) (λ r. refl)

  pub begun-IsHarmless : (prepared : Dict Prepared) (e : Enemy F) → IsHarmless (begun prepared e)
  begun-IsHarmless prepared e = record {
    same_id = λ r. refl;
    stays_started = λ r h. refl;
    lets_none_in = λ r j h. has_key-prepare_members prepared j r.members h;
  }

  pub with_round-IsHarmless : (at : ℕ) → IsHarmless (with_round {F = F} at)
  with_round-IsHarmless at = IsHarmless-plain (λ r. refl) (λ r. refl) (λ r. refl)

  pub with_rewards-IsHarmless :
      (p : ℕ) (c : Character) (l : PersonalLoot) → IsHarmless (with_rewards {F = F} p c l)
  with_rewards-IsHarmless p c l = record {
    same_id = λ r. refl;
    stays_started = λ r h. h;
    lets_none_in = λ r j h. has_key-change_at j p _ r.members h;
  }

  pub after_encounter-IsHarmless : (u : Unit {0}) → IsHarmless (after_encounter {F = F})
  after_encounter-IsHarmless u = record {
    same_id = λ r. refl;
    stays_started = λ r h. refl;
    lets_none_in = λ r j h. h;
  }

  pub with_extracted-IsHarmless : (u : Unit {0}) → IsHarmless (with_extracted {F = F})
  with_extracted-IsHarmless u = IsHarmless-plain (λ r. refl) (λ r. refl) (λ r. refl)

  pub with_vote-IsHarmless : (p : ℕ) (v : ExpeditionVote) → IsHarmless (with_vote {F = F} p v)
  with_vote-IsHarmless p v = IsHarmless-plain (λ r. refl) (λ r. refl) (λ r. refl)

  pub raise_index-IsHarmless : (u : Unit {0}) → IsHarmless (raise_index {F = F})
  raise_index-IsHarmless u = IsHarmless-plain (λ r. refl) (λ r. refl) (λ r. refl)

  pub next_encounter-IsHarmless : (e : Enemy F) → IsHarmless (next_encounter e)
  next_encounter-IsHarmless e = record {
    same_id = λ r. refl;
    stays_started = λ r h. refl;
    lets_none_in = λ r j h. h;
  }

  -- A phase that is not the lobby's.
  pub with_phase-IsHarmless :
      (phase : RoomPhase) → is_lobby phase ≡ false → IsHarmless (with_phase {F = F} phase)
  with_phase-IsHarmless phase away = record {
    same_id = λ r. refl;
    stays_started = λ r h. away;
    lets_none_in = λ r j h. h;
  }

  pub with_submitted-IsHarmless :
      (p : ℕ) (a : CombatAction) → IsHarmless (with_submitted {F = F} p a)
  with_submitted-IsHarmless p a = IsHarmless-plain (λ r. refl) (λ r. refl) (λ r. refl)

  pub with_auto-IsHarmless : (p : ℕ) (b : Bool) → IsHarmless (with_auto {F = F} p b)
  with_auto-IsHarmless p b = record {
    same_id = λ r. refl;
    stays_started = λ r h. h;
    lets_none_in = λ r j h. has_key-change_at j p _ r.members h;
  }

  pub with_member_at-IsHarmless :
      (p : ℕ) (f : RoomMember → RoomMember) → IsHarmless (with_member_at {F = F} p f)
  with_member_at-IsHarmless p f = record {
    same_id = λ r. refl;
    stays_started = λ r h. h;
    lets_none_in = λ r j h. has_key-change_at j p f r.members h;
  }

  pub set_resolving-IsHarmless : (b : Bool) → IsHarmless (set_resolving {F = F} b)
  set_resolving-IsHarmless b = IsHarmless-plain (λ r. refl) (λ r. refl) (λ r. refl)

  pub with_result-IsHarmless : (x : RoundResult F) → IsHarmless (with_result x)
  with_result-IsHarmless x = record {
    same_id = λ r. refl;
    stays_started = λ r h. h;
    lets_none_in = λ r j h. has_key-take_outcomes x.party x.potion_cooldowns j r.members h;
  }

  pub stopped-IsHarmless : (u : Unit {0}) → IsHarmless (stopped {F = F})
  stopped-IsHarmless u = record {
    same_id = λ r. refl;
    stays_started = λ r h. refl;
    lets_none_in = λ r j h. h;
  }

  pub next_round-IsHarmless : (u : Unit {0}) → IsHarmless (next_round {F = F})
  next_round-IsHarmless u = IsHarmless-plain (λ r. refl) (λ r. refl) (λ r. refl)
