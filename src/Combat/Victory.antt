-- ===== src/Combat/Victory.antt =====
-- The enemy in one round of src/combat/engine.ts, and a round that defeats it.
use vaelmour_game.Prelude.{
  ℕ, suc, ◌≤◌, ◌≡◌, refl, ◌&&◌, List, [], ◌∷◌, ltb, arith, Bool-cases, Option-cases, inl, inr,
}
use vaelmour_game.Prelude.Dict.{lookup}
use vaelmour_game.Combat.Types.{Float, Character, Enemy, Zone, RoundInput}
use vaelmour_game.Combat.Engine.{can_character_act}
use vaelmour_game.Combat.Round.{
  Strikes, not_ready, takes_potion, strike_zone, strike, try_strike, party_attacks, after_potions,
  after_strikes, after_blows, resolve_round,
}
use vaelmour_game.Combat.Fates.{
  Each2, Each2-trans, Each2-map, IsSound, drunk, sipped, drink_potions-party,
}

module _ (fl : Float) (input : RoundInput fl.F) where
  -- From an enemy before a step to the same enemy after it.
  pub record Weakens (e f : Enemy fl.F) : Type 0 where
    pub fewer_points : f.current_hp ≤ e.current_hp
    pub same_count : f.attack_count ≡ e.attack_count
    pub same_max : f.max_hp ≡ e.max_hp
    pub same_attack : f.attack ≡ e.attack

  Weakens-refl : (e : Enemy fl.F) → Weakens e e
  Weakens-refl e = record {
    fewer_points = omega arith;
    same_count = refl;
    same_max = refl;
    same_attack = refl;
  }

  Weakens-trans : (e f g : Enemy fl.F) → Weakens e f → Weakens f g → Weakens e g
  Weakens-trans e f g p q = ground (arith, p.fewer_points, q.fewer_points)

  Weakens-strike :
      (m : Character) (zone : Zone) (s : Strikes fl.F)
      → Weakens s.enemy (strike fl input m zone s).enemy
  Weakens-strike m zone s = record {
    fewer_points = omega arith;
    same_count = refl;
    same_max = refl;
    same_attack = refl;
  }

  Weakens-try_strike :
      (m : Character) (s : Strikes fl.F) → Weakens s.enemy (try_strike fl input m s).enemy
  Weakens-try_strike m s = elim (Bool-cases (can_character_act m && ltb 0 s.enemy.current_hp)) [
    | inl acts ↦ elim (Option-cases (strike_zone fl input (lookup m.id input.actions))) [
      | inl e ↦ rw (acts, e) (Weakens-refl s.enemy)
      | inr (zone, e) ↦ rw (acts, e) (Weakens-strike m zone s)
    ]
    | inr waits ↦ rw waits (Weakens-refl s.enemy)
  ]

  party_attacks-Weakens :
      (ms : List Character) (s : Strikes fl.F) → Weakens s.enemy (party_attacks fl input ms s).enemy
  unfolding party_attacks
  party_attacks-Weakens [] s = Weakens-refl s.enemy
  party_attacks-Weakens (m ∷ ms) s =
      Weakens-trans s.enemy _ _ (Weakens-try_strike m s)
        (party_attacks-Weakens ms (try_strike fl input m s))

  -- A round counts one more attack of the enemy, never gives it points, and leaves its maximum and
  -- its attack alone.
  pub resolve_round-Weakens :
      Weakens
        (record input.enemy { attack_count = suc input.enemy.attack_count })
        (resolve_round fl input).enemy
  unfolding resolve_round after_strikes
  resolve_round-Weakens = party_attacks-Weakens _ _

  -- A sound member loses no points.
  abbrev pub Spared : Character → Character → Type 0
  Spared c d = IsSound c → c.current_hp ≤ d.current_hp

  sipped-Spared : (index : ℕ) (m : Character) → Spared m (sipped fl input index m)
  sipped-Spared index m sound = elim (Bool-cases (takes_potion fl input index m)) [
    | inl sips ↦ let h = sound.capped in rw sips (omega arith)
    | inr rests ↦ rw rests (omega arith)
  ]

  drunk-Spared : (index : ℕ) (ms : List Character) → Each2 Spared ms (drunk fl input index ms)
  unfolding drunk
  drunk-Spared index [] = tt
  drunk-Spared index (m ∷ ms) = (sipped-Spared index m, drunk-Spared (suc index) ms)

  Same : Character → Character → Type 0
  Same c d = (d.current_hp ≡ c.current_hp) × (d.max_hp ≡ c.max_hp) × (d.alive ≡ c.alive)

  after_potions-Spared : Each2 Spared input.party (after_potions fl input).party
  unfolding after_potions Same
  after_potions-Spared = rw (drink_potions-party fl input) (
      Each2-trans Same Spared Spared
        (λ c d e same spared sound.
          let h = spared (record {
            capped = ground (arith, sound.capped, same);
            vital = ground (arith, sound.vital, same);
          }) in
          ground (arith, h, same))
        input.party _ _ (Each2-map Same not_ready (λ c. (refl, refl, refl)) input.party)
        (drunk-Spared 0 _))

  -- In a round that leaves the enemy with no points, no sound member of the party loses any: the
  -- party strikes first, and a beaten enemy does not strike back.
  pub resolve_round-Spared :
      (resolve_round fl input).enemy.current_hp ≡ 0
      → Each2 Spared input.party (resolve_round fl input).party
  unfolding resolve_round after_blows
  resolve_round-Spared beaten = rw beaten after_potions-Spared
