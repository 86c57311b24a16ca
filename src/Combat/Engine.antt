-- ===== src/Combat/Engine.antt =====
-- src/combat/engine.ts: one round of combat.
use vaelmour_game.Prelude.{
  ℕ, zero, suc, ◌-◌, ◌/◌, ◌%◌, max, Bool, true, false, ◌&&◌, Option, none, some, List, [], ◌∷◌, ltb,
  ◌==◌, if◌then◌else◌, keep, sort_by, length,
}
use vaelmour_game.Prelude.Dict.{Dict, lookup}
use vaelmour_game.Combat.Types.{
  Float, Zone, zones, Character, EnemyKind, Targeting, ZoneWeights, Enemy, ActionType, CombatAction,
  EnemyAction,
}

-- `attackZone === defendZone`
unfoldable pub resolve_block : Zone → Zone → Bool
resolve_block Zone.head Zone.head = true
resolve_block Zone.body Zone.body = true
resolve_block Zone.legs Zone.legs = true
resolve_block _ _ = false

unfoldable pub tick_potion_cooldown : ℕ → ℕ
tick_potion_cooldown cooldown = cooldown - 1

unfoldable pub apply_damage : ℕ → Character → Character
apply_damage damage member =
    let hp = member.current_hp - damage in record member { current_hp = hp; alive = ltb 0 hp }

unfoldable pub can_character_act : Character → Bool
can_character_act c = c.alive && ltb 0 c.current_hp

abbrev pub or_else {ℓ} : {A : Type ℓ} → Option A → A → A
or_else none d = d
or_else (some a) d = a

-- `table?.[id]`
abbrev pub field? : {A : Type 0} → Option (Dict A) → ℕ → Option A
field? none id = none
field? (some d) id = lookup id d

abbrev pub is_potion : CombatAction → Bool
is_potion a = elim a.kind [ ActionType.potion ↦ true | ActionType.attack ↦ false ]

-- `party.find(...)` by position, `array[index]`
abbrev pub nth : {A : Type 0} → ℕ → List A → Option A
nth n [] = none
nth zero (x ∷ xs) = some x
nth (suc n) (x ∷ xs) = nth n xs

module _ (fl : Float) where
  open fl use {F, of_ℕ, add, sub, mul, div, lt, floor, round}

  -- The damage, and how many answers of `random` have been used.
  unfoldable pub calculate_damage : ℕ → Bool → ℕ → ℕ × ℕ
  calculate_damage attack true n = (0, n)
  calculate_damage attack false n =
      let spread = fl.damage_spread in
      let multiplier = add (sub (of_ℕ 1) spread) (mul (mul (fl.random n) spread) (of_ℕ 2)) in
      (max 1 (round (mul (of_ℕ attack) multiplier)), suc n)

  abbrev pub alive_members : List Character → List Character
  alive_members party = keep (λ m. m.alive && ltb 0 m.current_hp) party

  -- `alive[Math.floor(random() * alive.length)] ?? alive[0]`
  abbrev pub pick : List Character → ℕ → Option Character × ℕ
  pick [] n = (none, n)
  pick (m ∷ ms) n =
      let index = floor (mul (fl.random n) (of_ℕ (length (m ∷ ms)))) in
      (some (or_else (nth index (m ∷ ms)) m), suc n)

  unfoldable pub select_enemy_target : List Character → ℕ → Option Character × ℕ
  select_enemy_target party n = pick (alive_members party) n

  abbrev pub lower_hp : Character → Character → Bool
  lower_hp a b =
      lt (div (of_ℕ a.current_hp) (of_ℕ a.max_hp)) (div (of_ℕ b.current_hp) (of_ℕ b.max_hp))

  abbrev pub higher_hp : Character → Character → Bool
  higher_hp a b = ltb b.current_hp a.current_hp

  unfoldable pub select_enemy_target_by_mode : List Character → Targeting → ℕ → Option Character × ℕ
  select_enemy_target_by_mode party Targeting.lowest_hp n =
      (nth 0 (sort_by lower_hp (alive_members party)), n)
  select_enemy_target_by_mode party Targeting.highest_hp n =
      (nth 0 (sort_by higher_hp (alive_members party)), n)
  select_enemy_target_by_mode party Targeting.random n = pick (alive_members party) n

  abbrev pub weight : ZoneWeights F → Zone → F
  weight w Zone.head = w.head
  weight w Zone.body = w.body
  weight w Zone.legs = w.legs

  -- `Math.max(0, x)`
  abbrev pub non_negative : F → F
  non_negative x = fl.max (of_ℕ 0) x

  -- The loop of `weightedZone`, which falls through to the body.
  unfoldable pub roll_zone : ZoneWeights F → F → List Zone → Zone
  roll_zone w roll [] = Zone.body
  roll_zone w roll (z ∷ zs) =
      let left = sub roll (non_negative (weight w z)) in
      let rest = roll_zone w left zs in if fl.le left (of_ℕ 0) then z else rest

  unfoldable pub weighted_zone : Option (ZoneWeights F) → ℕ → Zone × ℕ
  weighted_zone none n = (or_else (nth (floor (mul (fl.random n) (of_ℕ 3))) zones) Zone.body, suc n)
  weighted_zone (some w) n =
      let total =
        add (add (add (of_ℕ 0) (non_negative w.head)) (non_negative w.body))
          (non_negative w.legs) in
      (roll_zone w (mul (fl.random n) total) zones, suc n)

  abbrev pub is_boss : Enemy F → Bool
  is_boss e = elim e.kind [ EnemyKind.boss ↦ true | _ ↦ false ]

  abbrev pub group_every : Enemy F → ℕ
  group_every e = elim e.boss_pattern [ none ↦ 3 | some p ↦ p.group_attack_every ]

  -- `bossPattern.cycleWeights`, at the phase that the count of attacks is in
  abbrev pub attack_weights : Enemy F → Option (ZoneWeights F)
  attack_weights e = elim e.boss_pattern [
    | none ↦ e.attack_zone_weights
    | some p ↦ elim p.cycle_weights [
      | none ↦ e.attack_zone_weights
      | some [] ↦ e.attack_zone_weights
      | some (w ∷ ws) ↦
          nth (e.attack_count / max 1 (or_else p.cycle_length 3) % length (w ∷ ws)) (w ∷ ws)
    ]
  ]

  unfoldable pub generate_enemy_action : Enemy F → List Character → ℕ → EnemyAction × ℕ
  generate_enemy_action e party n =
      let is_group = is_boss e && (suc e.attack_count % group_every e == 0) in
      let (target, n1) =
        if is_group
        then (none, n)
        else select_enemy_target_by_mode party (or_else e.targeting Targeting.random) n in
      let (attack_zone, n2) = weighted_zone (attack_weights e) n1 in
      let (defend_zone, n3) = weighted_zone e.defense_zone_weights n2 in
      (
        record {
          attack_zone = attack_zone;
          defend_zone = defend_zone;
          target_id = elim target [ none ↦ none | some t ↦ some t.id ];
          is_group_attack = is_group;
        },
        n3,
      )
