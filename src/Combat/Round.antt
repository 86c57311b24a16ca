-- ===== src/Combat/Round.antt =====
-- `resolveRound` of src/combat/engine.ts, phase by phase.
use vaelmour_game.Prelude.{
  ℕ, suc, ◌+◌, ◌-◌, min, Bool, false, not, ◌&&◌, Option, none, some, List, [], ◌∷◌, ◌++◌, map, ltb,
  ◌==◌, if◌then◌else◌, keep,
}
use vaelmour_game.Prelude.Dict.{Dict, lookup, insert}
use vaelmour_game.Combat.Types.{
  ActionType, Float, Zone, potion_cooldown_rounds, Character, Enemy, CombatAction, EnemyAction,
  RoundInput, RoundResult, LogLine, heals, strike_blocked, strikes, blocks, receives, falls,
  defeated,
}
use vaelmour_game.Combat.Engine.{
  resolve_block, tick_potion_cooldown, apply_damage, can_character_act, calculate_damage, or_else,
  field?, is_potion,
}

-- The cooldowns that the potions have set, and the log so far.
pub record Potions : Type 0 where
  pub party : List Character
  pub next_cooldown : ℕ
  pub next_cooldowns : Dict ℕ
  pub log : List LogLine

-- The enemy and the answers of `random` that were used, in the party's attacks.
pub record Strikes (F : Type 0) : Type 0 where
  pub enemy : Enemy F
  pub random : ℕ
  pub log : List LogLine

-- The party and the answers of `random` that were used, in the enemy's attack.
pub record Blows : Type 0 where
  pub party : List Character
  pub random : ℕ
  pub log : List LogLine

abbrev pub not_ready : Character → Character
not_ready m = record m { ready = false }

-- `target.id === enemyAction.targetId`
abbrev pub is_target : EnemyAction → Character → Bool
is_target a m = elim a.target_id [ none ↦ false | some id ↦ m.id == id ]

module _ (fl : Float) (input : RoundInput fl.F) where
  open fl use {F, of_ℕ, mul, round}

  -- `member.id === party[0]?.id`
  abbrev pub is_first_id : ℕ → Bool
  is_first_id id = elim input.party [ [] ↦ false | m ∷ _ ↦ id == m.id ]

  unfoldable pub ticked_cooldowns : List Character → Dict ℕ → Dict ℕ
  ticked_cooldowns [] d = d
  ticked_cooldowns (m ∷ ms) d =
      let cooldown =
        or_else (field? input.potion_cooldowns m.id)
          (if is_first_id m.id then input.potion_cooldown else 0) in
      ticked_cooldowns ms (insert m.id (tick_potion_cooldown cooldown) d)

  abbrev pub takes_potion : ℕ → Character → Bool
  takes_potion index m =
      let cooldown =
        or_else (field? input.potion_cooldowns m.id)
          (if index == 0 then input.potion_cooldown else 0) in
      can_character_act m
      && elim (lookup m.id input.actions) [ none ↦ false | some a ↦ is_potion a ]
      && cooldown == 0

  abbrev pub healed_hp : Character → ℕ
  healed_hp m =
      let percent = or_else (field? input.potion_heal_percents m.id) fl.potion_heal_percent in
      min m.max_hp (m.current_hp + round (mul (of_ℕ m.max_hp) percent))

  -- One round of the loop of step 2.
  unfoldable pub sip : ℕ → Character → Potions → Potions
  sip index m p =
      let hp = healed_hp m in
      if takes_potion index m
      then record {
        party = p.party ++ record m { current_hp = hp } ∷ [];
        next_cooldown = if index == 0 then potion_cooldown_rounds else p.next_cooldown;
        next_cooldowns = insert m.id potion_cooldown_rounds p.next_cooldowns;
        log = p.log ++ heals m.name (hp - m.current_hp) ∷ [];
      }
      else record p { party = p.party ++ m ∷ [] }

  -- Step 2, for the members from `index` on.
  unfoldable pub drink_potions : ℕ → List Character → Potions → Potions
  drink_potions index [] p = p
  drink_potions index (m ∷ ms) p = drink_potions (suc index) ms (sip index m p)

  -- The attack zone of an action that strikes.
  abbrev pub strike_zone : Option CombatAction → Option Zone
  strike_zone none = none
  strike_zone (some a) = if is_potion a then none else a.attack_zone

  -- One strike of a member that can act.
  abbrev pub strike : Character → Zone → Strikes F → Strikes F
  strike m zone s =
      let blocked = resolve_block zone input.enemy_action.defend_zone in
      let (damage, n) = calculate_damage fl m.attack blocked s.random in
      record {
        enemy = record s.enemy { current_hp = s.enemy.current_hp - damage };
        random = n;
        log = s.log ++ (if blocked then strike_blocked m.name zone else strikes m.name damage) ∷ [];
      }

  abbrev pub try_strike : Character → Strikes F → Strikes F
  try_strike m s =
      if can_character_act m && ltb 0 s.enemy.current_hp
      then elim (strike_zone (lookup m.id input.actions)) [ none ↦ s | some zone ↦ strike m zone s ]
      else s

  -- Steps 3 and 4.
  unfoldable pub party_attacks : List Character → Strikes F → Strikes F
  party_attacks [] s = s
  party_attacks (m ∷ ms) s = party_attacks ms (try_strike m s)

  abbrev pub blocks_attack : Character → Bool
  blocks_attack target = elim (lookup target.id input.actions) [
    | none ↦ false
    | some a ↦ resolve_block input.enemy_action.attack_zone a.defend_zone
  ]

  -- One blow of the enemy: every member with the target's identifier takes it.
  abbrev pub blow : ℕ → Character → Blows → Blows
  blow attack target b =
      let blocked = blocks_attack target in
      let (damage, n) = calculate_damage fl attack blocked b.random in
      record {
        party = map (λ m. if m.id == target.id then apply_damage damage m else m) b.party;
        random = n;
        log =
            b.log
            ++ (if blocked
                then blocks target.name input.enemy_action.attack_zone
                else receives target.name damage)
              ∷ [];
      }

  unfoldable pub enemy_attacks : ℕ → List Character → Blows → Blows
  enemy_attacks attack [] b = b
  enemy_attacks attack (t ∷ ts) b = enemy_attacks attack ts (blow attack t b)

  abbrev pub targets : List Character → List Character
  targets party =
      if input.enemy_action.is_group_attack
      then keep can_character_act party
      else keep (λ m. is_target input.enemy_action m && can_character_act m) party

  -- The members that were alive and are no longer.
  unfoldable pub deaths : List Character → List Character → List LogLine
  deaths (before ∷ bs) (after ∷ as_now) =
      let rest = deaths bs as_now in
      if before.alive && not after.alive then falls after.name ∷ rest else rest
  deaths _ _ = []

  unfoldable pub after_potions : Potions
  after_potions =
      let party = map not_ready input.party in
      drink_potions 0 party (record {
        party = [];
        next_cooldown = tick_potion_cooldown input.potion_cooldown;
        next_cooldowns = ticked_cooldowns party [];
        log = [];
      })

  unfoldable pub after_strikes : Strikes F
  after_strikes = party_attacks after_potions.party (record {
    enemy = record input.enemy { attack_count = suc input.enemy.attack_count };
    random = input.random;
    log = after_potions.log;
  })

  unfoldable pub after_blows : Blows
  after_blows =
      let s = after_strikes in
      let b : Blows = record { party = after_potions.party; random = s.random; log = s.log } in
      if ltb 0 s.enemy.current_hp
      then enemy_attacks s.enemy.attack (targets after_potions.party) b
      else b

  unfoldable pub resolve_round : RoundResult F
  resolve_round =
      let p = after_potions in
      let s = after_strikes in
      let b = after_blows in
      record {
        party = b.party;
        enemy = s.enemy;
        potion_cooldown = p.next_cooldown;
        potion_cooldowns = p.next_cooldowns;
        log =
            b.log
            ++ deaths input.party b.party
            ++ (if ltb 0 s.enemy.current_hp then [] else defeated s.enemy.name ∷ []);
        random = b.random;
      }

-- `createAttackAction`
unfoldable pub create_attack_action : Zone → Zone → CombatAction
create_attack_action attack_zone defend_zone = record {
  kind = ActionType.attack;
  attack_zone = some attack_zone;
  defend_zone = defend_zone;
  potion_item_id = none;
}
