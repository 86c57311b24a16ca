-- ===== src/Combat/Fates.antt =====
-- What one round of src/combat/engine.ts does to each member of the party.
use vaelmour_game.Prelude.{
  ℕ, suc, ◌≤◌, ◌≡◌, refl, sym, ◌∙◌, true, List, [], ◌∷◌, ◌++◌, map, ltb, ◌==◌, if◌then◌else◌, arith,
  Bool-cases, inl, inr, ==_iff, append-nil, append_assoc,
}
use vaelmour_game.Combat.Types.{Float, Character, RoundInput}
use vaelmour_game.Combat.Engine.{apply_damage, can_character_act, calculate_damage}
use vaelmour_game.Combat.Round.{
  Potions, Blows, not_ready, takes_potion, healed_hp, sip, drink_potions, blocks_attack, blow,
  enemy_attacks, after_potions, after_strikes, after_blows, resolve_round,
}

-- The two lists go in step.
abbrev pub Each2 : (Character → Character → Type 0) → List Character → List Character → Type 0
Each2 R [] [] = Unit
Each2 R (x ∷ xs) (y ∷ ys) = R x y × Each2 R xs ys
Each2 R _ _ = ⊥

-- No more points than the maximum, and alive exactly with some points left.
pub record IsSound (c : Character) : Type 0 where
  pub capped : c.current_hp ≤ c.max_hp
  pub vital : c.alive ≡ ltb 0 c.current_hp

pub Each2-trans :
    (R S T : Character → Character → Type 0)
    → ((c d e : Character) → R c d → S d e → T c e)
    → (xs ys zs : List Character) → Each2 R xs ys
    → Each2 S ys zs
    → Each2 T xs zs
Each2-trans R S T f [] [] [] p q = tt
Each2-trans R S T f (x ∷ xs) (y ∷ ys) (z ∷ zs) p q =
    (f x y z p.0 q.0, Each2-trans R S T f xs ys zs p.1 q.1)
Each2-trans R S T f [] [] (z ∷ zs) p q = absurd q
Each2-trans R S T f (x ∷ xs) (y ∷ ys) [] p q = absurd q
Each2-trans R S T f [] (y ∷ ys) zs p q = absurd p
Each2-trans R S T f (x ∷ xs) [] zs p q = absurd p

pub Each2-map :
    (R : Character → Character → Type 0) (f : Character → Character)
    → ((c : Character) → R c (f c))
    → (xs : List Character) → Each2 R xs (map f xs)
Each2-map R f h [] = tt
Each2-map R f h (x ∷ xs) = (h x, Each2-map R f h xs)

module _ (fl : Float) (input : RoundInput fl.F) where
  -- From a member before a step to the same member after it.
  pub record Fate (c d : Character) : Type 0 where
    pub same_id : d.id ≡ c.id
    pub same_max : d.max_hp ≡ c.max_hp
    pub same_attack : d.attack ≡ c.attack
    pub stays_sound : IsSound c → IsSound d
    pub stays_fallen : IsSound c → c.current_hp ≡ 0 → d.current_hp ≡ 0
    pub guarded : IsSound c → blocks_attack fl input c ≡ true → c.current_hp ≤ d.current_hp

  blocks_attack-id :
      (c d : Character) → c.id ≡ d.id → blocks_attack fl input c ≡ blocks_attack fl input d
  blocks_attack-id c d h = rw h

  Fate-trans : (c d e : Character) → Fate c d → Fate d e → Fate c e
  Fate-trans c d e p q = record {
    same_id = q.same_id ∙ p.same_id;
    same_max = q.same_max ∙ p.same_max;
    same_attack = q.same_attack ∙ p.same_attack;
    stays_sound = λ s. q.stays_sound (p.stays_sound s);
    stays_fallen = λ s z. q.stays_fallen (p.stays_sound s) (p.stays_fallen s z);
    guarded = λ s g.
        let g' = q.guarded (p.stays_sound s) (blocks_attack-id d c p.same_id ∙ g) in
        let h = p.guarded s g in omega arith;
  }

  Fate-not_ready : (c : Character) → Fate c (not_ready c)
  Fate-not_ready c = record {
    same_id = refl;
    same_max = refl;
    same_attack = refl;
    stays_sound = λ s. record { capped = s.capped; vital = s.vital };
    stays_fallen = λ s z. z;
    guarded = λ s g. omega arith;
  }

  Fate-refl : (c : Character) → Fate c c
  Fate-refl c = record {
    same_id = refl;
    same_max = refl;
    same_attack = refl;
    stays_sound = λ s. s;
    stays_fallen = λ s z. z;
    guarded = λ s g. omega arith;
  }

  Fate-heal :
      (c : Character)
      → can_character_act c ≡ true
      → Fate c (record c { current_hp = healed_hp fl input c })
  unfolding can_character_act
  Fate-heal c acts = record {
    same_id = refl;
    same_max = refl;
    same_attack = refl;
    stays_sound = λ s. record { capped = omega arith; vital = ground (arith, s.capped, s.vital) };
    stays_fallen = λ s z. ground arith;
    guarded = λ s g. let h = s.capped in omega arith;
  }

  Fate-damage :
      (c t : Character) (attack n : ℕ)
      → c.id ≡ t.id
      → Fate c (apply_damage (calculate_damage fl attack (blocks_attack fl input t) n).0 c)
  unfolding apply_damage calculate_damage
  Fate-damage c t attack n same = record {
    same_id = refl;
    same_max = refl;
    same_attack = refl;
    stays_sound = λ s. record { capped = let h = s.capped in omega arith; vital = refl };
    stays_fallen = λ s z. omega arith;
    guarded = λ s g. rw (← blocks_attack-id c t same, g) (omega arith);
  }

  Each2-refl : (xs : List Character) → Each2 Fate xs xs
  Each2-refl [] = tt
  Each2-refl (x ∷ xs) = (Fate-refl x, Each2-refl xs)

  -- A member as step 2 leaves it, and all from `index` on.
  abbrev pub sipped : ℕ → Character → Character
  sipped index m =
      if takes_potion fl input index m then record m { current_hp = healed_hp fl input m } else m

  unfoldable pub drunk : ℕ → List Character → List Character
  drunk index [] = []
  drunk index (m ∷ ms) = sipped index m ∷ drunk (suc index) ms

  sip-party :
      (index : ℕ) (m : Character) (p : Potions)
      → (sip fl input index m p).party ≡ p.party ++ sipped index m ∷ []
  unfolding sip
  sip-party index m p = elim (Bool-cases (takes_potion fl input index m)) [
    | inl sips ↦ rw sips
    | inr rests ↦ rw rests
  ]

  pub drink_potions-party :
      (index : ℕ) (ms : List Character) (p : Potions)
      → (drink_potions fl input index ms p).party ≡ p.party ++ drunk index ms
  unfolding drink_potions drunk
  drink_potions-party index [] p = sym (append-nil p.party)
  drink_potions-party index (m ∷ ms) p =
      rw (drink_potions-party (suc index) ms (sip fl input index m p), sip-party index m p)
        (append_assoc p.party (sipped index m ∷ []) (drunk (suc index) ms))

  takes_potion-acts :
      (index : ℕ) (m : Character)
      → takes_potion fl input index m ≡ true
      → can_character_act m ≡ true
  takes_potion-acts index m h = ground arith

  drunk-Fates : (index : ℕ) (ms : List Character) → Each2 Fate ms (drunk index ms)
  unfolding drunk
  drunk-Fates index [] = tt
  drunk-Fates index (m ∷ ms) = elim (Bool-cases (takes_potion fl input index m)) [
    | inl sips ↦ rw sips (Fate-heal m (takes_potion-acts index m sips), drunk-Fates (suc index) ms)
    | inr rests ↦ rw rests (Fate-refl m, drunk-Fates (suc index) ms)
  ]

  Fate-blow :
      (attack n : ℕ) (t c : Character)
      → Fate c (
          if c.id == t.id
          then apply_damage (calculate_damage fl attack (blocks_attack fl input t) n).0 c
          else c)
  Fate-blow attack n t c = elim (Bool-cases (c.id == t.id)) [
    | inl same ↦ rw same (Fate-damage c t attack n ((==_iff c.id t.id).0 same))
    | inr other ↦ rw other (Fate-refl c)
  ]

  enemy_attacks-Fates :
      (attack : ℕ) (ts : List Character) (b : Blows)
      → Each2 Fate b.party (enemy_attacks fl input attack ts b).party
  unfolding enemy_attacks
  enemy_attacks-Fates attack [] b = Each2-refl b.party
  enemy_attacks-Fates attack (t ∷ ts) b =
      Each2-trans Fate Fate Fate Fate-trans b.party _ _
        (Each2-map Fate _ (Fate-blow attack b.random t) b.party)
        (enemy_attacks-Fates attack ts (blow fl input attack t b))

  after_potions-Fates : Each2 Fate input.party (after_potions fl input).party
  unfolding after_potions
  after_potions-Fates = rw drink_potions-party (
      Each2-trans Fate Fate Fate Fate-trans input.party _ _
        (Each2-map Fate not_ready Fate-not_ready input.party) (drunk-Fates 0 _))

  after_blows-Fates : Each2 Fate (after_potions fl input).party (after_blows fl input).party
  unfolding after_blows
  after_blows-Fates = elim (Bool-cases (ltb 0 (after_strikes fl input).enemy.current_hp)) [
    | inl fights ↦ rw fights (enemy_attacks-Fates _ _ _)
    | inr beaten ↦ rw beaten (Each2-refl _)
  ]

  -- A round keeps the party's roster in order, and each member's identifier, maximum and attack. A
  -- sound member (no more points than the maximum, alive exactly with some points left) stays
  -- sound, one with no points left stays so, and one whose defence is in the zone of the enemy's
  -- attack ends with no fewer points.
  pub resolve_round-Fates : Each2 Fate input.party (resolve_round fl input).party
  unfolding resolve_round
  resolve_round-Fates =
      Each2-trans Fate Fate Fate Fate-trans input.party _ _ after_potions-Fates after_blows-Fates
