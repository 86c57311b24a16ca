-- ===== src/Progression/Levels.antt =====
-- The level loop of src/progression/progression.ts ends, and accounts for every point of experience.
use vaelmour_game.Prelude.{
  ℕ, zero, suc, ◌+◌, ◌*◌, ◌≤◌, ◌<◌, ◌≡◌, ap, ◌∙◌, false, Option, some, leb, arith, Bool-cases, inl,
  inr, leb→le,
}
use vaelmour_game.Prelude.Int.{ℤ}
use vaelmour_game.Combat.Types.{Character}
use vaelmour_game.Progression.{
  ProgressionResult, level_up, level_ups, with_xp, apply_xp_and_level_ups,
}

module _ (xp_required : ℕ → ℕ) where
  -- The experience that `n` levels from `level` on cost together.
  abbrev pub total_required : ℕ → ℕ → ℕ
  total_required level zero = 0
  total_required level (suc n) = xp_required level + total_required (suc level) n

  -- What `gained` levels have done to a character.
  pub record Gains (c d : Character) (gained : ℕ) : Type 0 where
    pub new_level : d.level ≡ c.level + gained
    pub paid : d.current_xp + total_required c.level gained ≡ c.current_xp
    pub new_attack : d.attack ≡ c.attack + gained
    pub new_max_hp : d.max_hp ≡ c.max_hp + gained * 5
    pub new_hp : d.current_hp ≡ c.current_hp + gained * 5
    pub below_next : d.current_xp < xp_required d.level

  -- The loop from `r` ends in a result that has gained so many levels more.
  Ends : ℕ → ProgressionResult → Type 0
  Ends rounds r =
      (n : ℕ) × (d : Character) × (level_ups xp_required rounds r
        ≡ some (record { character = d; levels_gained = r.levels_gained + n }))
      × Gains r.character d n

  abbrev result : Character → ℕ → Option ProgressionResult
  result d k = some (record { character = d; levels_gained = k })

  later :
      (r : ProgressionResult) (n : ℕ) (d : Character)
      → xp_required r.character.level ≤ r.character.current_xp
      → Gains (level_up (xp_required r.character.level) r).character d n
      → Gains r.character d (suc n)
  later r n d enough g =
      let a = g.new_level in
      let b = g.paid in
      let c = g.new_attack in
      let e = g.new_max_hp in
      let f = g.new_hp in
      record {
        new_level = omega arith;
        paid = omega arith;
        new_attack = omega arith;
        new_max_hp = omega arith;
        new_hp = omega arith;
        below_next = g.below_next;
      }

  now :
      (r : ProgressionResult)
      → leb (xp_required r.character.level) r.character.current_xp ≡ false
      → Gains r.character r.character 0
  now r done = record {
    new_level = omega arith;
    paid = omega arith;
    new_attack = omega arith;
    new_max_hp = omega arith;
    new_hp = omega arith;
    below_next = ground arith;
  }

  module _ (positive : (level : ℕ) → 0 < xp_required (suc level)) where
    required_pos : (level : ℕ) → 0 < level → 0 < xp_required level
    required_pos zero h = absurd (omega arith)
    required_pos (suc level) h = positive level

    level_ups-Ends :
        (rounds : ℕ) (r : ProgressionResult)
        → 0 < r.character.level
        → r.character.current_xp < rounds
        → Ends rounds r
    unfolding Ends level_ups
    level_ups-Ends zero r p h = absurd (omega arith)
    level_ups-Ends (suc rounds) r p h =
        let required = xp_required r.character.level in
        elim (Bool-cases (leb required r.character.current_xp)) [
          | inl more ↦
              let enough = leb→le required r.character.current_xp more in
              let cost = required_pos r.character.level p in
              let (n, d, e, g) =
                level_ups-Ends rounds (level_up required r) (omega arith) (omega arith) in
              (
                suc n,
                d,
                rw more (e ∙ ap (λ (k : ℕ). result d k) (omega arith)),
                later r n d enough g,
              )
          | inr done ↦ (
            0,
            r.character,
            rw done (ap (λ (k : ℕ). result r.character k) (omega arith)),
            now r done,
          )
        ]

    -- Enough rounds are given: the loop ends for every character of level 1 or more and every amount
    -- of experience. The levels gained are paid for exactly, each raises the attack by one and both
    -- hit points by five, and what is left does not reach the next level.
    pub apply_xp_and_level_ups-Gains :
        (c : Character) (earned_xp : ℤ)
        → 0 < c.level
        → (n : ℕ) × (d : Character) × (apply_xp_and_level_ups xp_required c earned_xp
            ≡ some (record { character = d; levels_gained = n }))
          × Gains (with_xp xp_required c earned_xp) d n
    unfolding apply_xp_and_level_ups Ends
    apply_xp_and_level_ups-Gains c earned_xp p =
        let begun : ProgressionResult = record {
          character = with_xp xp_required c earned_xp;
          levels_gained = 0;
        } in
        let (n, d, e, g) =
          level_ups-Ends (suc (suc begun.character.current_xp)) begun p (omega arith) in
        (n, d, e ∙ ap (λ (k : ℕ). result d k) (omega arith), g)
